-- ===== src/Tests/Userspaces.antt =====
-- Userspaces over HTTP: creation, deletion and transfer, on concrete data.
use httpkvdb.Validate.{
  raw_sha256, all_chars, match_userspace_id, validate_userspace_id, validate_key, validate_value,
  value_type,
}
use httpkvdb.Codec.Encode.{encode_record, encode_records, encode_body, encode}
use httpkvdb.Codec.Words.{big_endian}
use httpkvdb.Http.Transfer.{handle_export, mode_of, handle_import}
use httpkvdb.Golang.Sort.{sort}
use httpkvdb.Base.Dict.{any_value, delete, member, insert, lookup}
use httpkvdb.Storage.Accounts.{create_userspace, delete_userspace}
use httpkvdb.Base.{◌⊎◌, true, false, arith, ◌≡◌, refl}
use httpkvdb.Auth.Refines.{credential_of}
use httpkvdb.Storage.Snapshot.{userspace_exists, space_of}
use httpkvdb.Http.Message.{not_found_page, Request}
use httpkvdb.Http.Admin.{create_with_key, handle_delete_userspace}
use httpkvdb.Http.Router.{Route, handler}
use httpkvdb.Http.Coherence.{is_failure, handler-IsCoherent}
use httpkvdb.Http.Creation.{sender_before, expelled, joined, delete_expels, create_joins}
use httpkvdb.Auth.Token.{api_key_hash}
use httpkvdb.Auth.Authenticator.{authenticate_request, new_authenticator}
use httpkvdb.Model.{Principal}
use httpkvdb.Base.Bytes.{Bytes, bytes_eq, codes}
use httpkvdb.Golang.Crypto.{toy_std}
use httpkvdb.Codec.RoundTrip.{IsExportable}
use httpkvdb.Storage.Store.{export_userspace}
use httpkvdb.Storage.Import.{content_at}
use httpkvdb.Http.Transfers.{import_after_export}
use httpkvdb.Tests.World.{
  greeting, toy_tokens, shows, server, web, request, alice, home, alices_key,
}
use httpkvdb.Storage.Disk.{sync_records, sync_spaces, sync_userspace_files, write_database, persist}
use httpkvdb.Golang.Text.{trim_space, to_lower, before}
use httpkvdb.Auth.Coherent.{IsCoherent, IsCoherent-empty}
use httpkvdb.Golang.Utf8.{valid_string}
use httpkvdb.Golang.Stream.{read_all, limited}
use httpkvdb.Config.Settings.{from_values, value_int}
use httpkvdb.Storage.Atomic.{clone_snapshot}
use httpkvdb.Tests.Http.{put_x}

-- A request that does not end in a failure.
handler-IsCoherent_example :
    (is_failure (handler web (λ r. Route.protected) (λ r. not_found_page) server put_x).0 ≡ true)
    ⊎ IsCoherent
        (handler web (λ r. Route.protected) (λ r. not_found_page) server put_x).1.store
        (handler web (λ r. Route.protected) (λ r. not_found_page) server put_x).1.auth.cache
unfolding new_authenticator clone_snapshot
handler-IsCoherent_example =
    handler-IsCoherent web (λ r. Route.protected) (λ r. not_found_page) server put_x
      (IsCoherent-empty server.store) (λ d h. cc)

-- alice, after her userspace is deleted.
delete_expels_example :
    (authenticate_request toy_tokens 40
      (handle_delete_userspace web (codes "i") server home).1.store
      (handle_delete_userspace web (codes "i") server home).1.auth
      (shows alices_key)).0
    ≡ expelled home
        (sender_before web (codes "i") server home 40 (credential_of (shows alices_key)))
unfolding new_authenticator handle_delete_userspace delete_userspace userspace_exists member
    bytes_eq persist write_database sync_userspace_files sync_spaces delete
delete_expels_example =
    delete_expels web (codes "i") server home 40 (shows alices_key)
      (record { keys = (tt, tt); subjects = tt; transactions = tt }) refl

-- bob, whose userspace is new.
create_joins_example :
    (userspace_exists server.store.contents (codes "bobs") ≡ false)
    × ((authenticate_request toy_tokens 40
          (create_with_key web (codes "i") server (codes "bobs") (codes "bob") (codes "k3")).1.store
          (create_with_key web (codes "i") server (codes "bobs") (codes "bob") (codes "k3")).1.auth
          (shows (codes "k3"))).0
        ≡ joined web
            (codes "i")
            server
            (codes "bobs")
            (codes "bob")
            (codes "k3")
            40
            (credential_of (shows (codes "k3"))))
unfolding new_authenticator create_with_key create_userspace validate_userspace_id bytes_eq
    match_userspace_id all_chars userspace_exists member any_value persist write_database
    sync_userspace_files sync_spaces api_key_hash insert sync_records
create_joins_example =
    create_joins web (codes "i") server (codes "bobs") (codes "bob") (codes "k3") 40
      (shows (codes "k3")) refl refl

-- The export of home, sent to the userspace bobs of the same server.
abbrev bob : Principal
bob = record alice { userspace_id = codes "bobs" }

abbrev export_of_home : Bytes
export_of_home = encode toy_std web.env.now (export_userspace server.store home)

abbrev post_export : Request
post_export = request (codes "POST") (codes "/v1/import") alices_key export_of_home

greeting-IsExportable : IsExportable toy_std 4096 104857600 greeting
unfolding validate_key validate_value valid_string bytes_eq value_type to_lower trim_space before
greeting-IsExportable = record {
  key_valid = refl;
  content_type_fits = omega arith;
  value_fits = omega arith;
  value_valid = refl;
  version_fits = omega arith;
  created_fits = omega arith;
  updated_fits = omega arith;
}

import_after_export_example :
    content_at
      (handle_import web (codes "i") server post_export bob).1.store
      (codes "bobs")
      (codes "k")
    ≡ content_at server.store home (codes "k")
unfolding export_userspace mode_of clone_snapshot from_values value_int lookup space_of bytes_eq
    sort handle_export read_all limited encode encode_body big_endian encode_records encode_record
    raw_sha256
import_after_export_example =
    import_after_export web web (codes "i") (codes "i") server server alice bob post_export
      export_of_home (codes "k") 4096 104857600 (omega arith) (omega arith) refl refl refl
      (record { once = (tt, tt); keyed = (refl, tt) }) (omega arith) (greeting-IsExportable, tt)
      refl refl refl refl
