-- ===== src/Tests/Auth.antt =====
-- Requests that show keys and tokens.
use httpkvdb.Auth.Token.{check_claims, api_key_hash, verify_jwt}
use httpkvdb.Golang.Encoding.{decode_raw_url, hex, base64_raw_url}
use httpkvdb.Golang.Text.{split, trim_space}
use httpkvdb.Base.Dict.{delete, insert, lookup}
use httpkvdb.Auth.Cache.{set_cache, get_cache}
use httpkvdb.Storage.Accounts.{resolve_api_key_hash}
use httpkvdb.Auth.Authenticator.{
  new_authenticator, cached, authenticate_api_key, Authenticator, authenticate_request,
}
use httpkvdb.Base.Bytes.{bytes_eq, Bytes, codes}
use httpkvdb.Base.{◌≡◌, refl, ◌≤◌, length, [], ◌++◌, arith}
use httpkvdb.Auth.Coherent.{IsCoherent, IsCoherent-empty}
use httpkvdb.Auth.Refines.{bearer, credential_of, authenticate_request_refines}
use httpkvdb.Auth.Bounds.{cache_bounded}
use httpkvdb.Auth.Verified.{IsSigned, verify_jwt_sound}
use httpkvdb.Tests.World.{toy_tokens, secret, alices_key, keyed_store, cold, shows}

-- The authenticator after a first request, with the principal in its cache.
abbrev warm : Authenticator
warm = (authenticate_request toy_tokens 10 keyed_store cold (shows alices_key)).1

one_entry : length warm.cache ≡ 1
unfolding authenticate_request trim_space bytes_eq authenticate_api_key cached get_cache lookup
    new_authenticator resolve_api_key_hash api_key_hash hex set_cache insert delete
one_entry = refl

authenticate_request_refines_example :
    ((authenticate_request toy_tokens 20 keyed_store warm (shows alices_key)).0
      ≡ bearer toy_tokens 20 keyed_store warm (credential_of (shows alices_key)))
    × IsCoherent keyed_store
        (authenticate_request toy_tokens 20 keyed_store warm (shows alices_key)).1.cache
unfolding new_authenticator
authenticate_request_refines_example =
    authenticate_request_refines toy_tokens 20 keyed_store warm (shows alices_key)
      (authenticate_request_refines toy_tokens 10 keyed_store cold (shows alices_key)
        (IsCoherent-empty keyed_store)).1

cache_bounded_example :
    length (authenticate_request toy_tokens 10 keyed_store cold (shows alices_key)).1.cache ≤ 2
unfolding new_authenticator
cache_bounded_example =
    cache_bounded toy_tokens 10 keyed_store 2 (omega arith) cold (shows alices_key) refl
      (omega arith)

abbrev token_of_alice : Bytes
token_of_alice = codes "h.YWxpY2U." ++ base64_raw_url (codes "sh.YWxpY2U")

verify_jwt_sound_example : IsSigned toy_tokens secret [] [] 10 token_of_alice (codes "alice")
unfolding verify_jwt split base64_raw_url decode_raw_url bytes_eq check_claims
verify_jwt_sound_example =
    verify_jwt_sound toy_tokens secret [] [] 10 token_of_alice (codes "alice") refl
