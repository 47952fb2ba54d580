-- ===== src/Http/ReadBack.antt =====
-- PUT, GET, HEAD and DELETE of one key over HTTP.
use httpkvdb.Base.{ℕ, [], ◌∷◌, length, if◌then◌else◌, ◌≡◌, Bool}
use httpkvdb.Base.Bytes.{Bytes, codes}
use httpkvdb.Golang.Stream.{Stream}
use httpkvdb.Base.Int.{pos}
use httpkvdb.Model.{KvRecord, ok}
use httpkvdb.Storage.Store.{Store}
use httpkvdb.Storage.Store
use httpkvdb.Http.Message.{Request, Response, no_body, plain}
use httpkvdb.Validate.{checksum}
use httpkvdb.Storage.Snapshot.{next_version}
use httpkvdb.Golang.Strconv.{format_uint, decimal}
use httpkvdb.Http.Server.{Server, World}
use httpkvdb.Http.Kv.{content_type_of}

-- The record under the key has the body of the request and its content type, and the version and
-- the checksum that belong to them.
record IsKept {Doc : Type 0} (w : World Doc) (before : Store Doc) (u key : Bytes) (r : Request)
    (store : Store Doc) : Type 0 where
  rec : KvRecord
  read : Store.get store u key ≡ ok rec
  value : rec.value ≡ r.body.bytes
  content_type : rec.content_type ≡ content_type_of (r.header (codes "Content-Type"))
  version : rec.version ≡ next_version before.contents.version
  sum : rec.checksum ≡ checksum w.env.std r.body.bytes

-- What a GET of a record is answered with, and a HEAD.
abbrev pub shown_as : (head : Bool) (value content_type checksum : Bytes) (version : ℕ) → Response
shown_as head value content_type checksum version = record {
  status = 200;
  headers =
      (codes "Content-Type", content_type)
      ∷ (codes "X-KV-Version", format_uint version)
      ∷ (codes "X-KV-Size", decimal (pos (length value)))
      ∷ (codes "X-KV-Checksum", checksum)
      ∷ [];
  body = if head then no_body else plain value;
}
