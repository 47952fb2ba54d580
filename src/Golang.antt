-- ===== src/Golang.antt =====
-- What the program uses of Go's standard library: strings, unicode/utf8, encoding/hex,
-- encoding/base64, net/url, strconv, io, sort, and (as parameters) crypto/sha256 and encoding/json.
pub mod Text
pub mod Utf8
pub mod Encoding
pub mod Url
pub mod Strconv
pub mod Stream
pub mod Sort
pub mod Crypto
