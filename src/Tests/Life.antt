-- ===== src/Tests/Life.antt =====
-- A start on an empty disk, a request, a tick and the end.
use httpkvdb.Base.{◌≡◌, refl, none, [], List, ◌∷◌}
use mathlib.Core.Path.{subst}
use httpkvdb.Base.Bytes.{bytes_eq}
use httpkvdb.Base.Dict.{lookup, member, insert}
use httpkvdb.Golang.Encoding.{hex}
use httpkvdb.Auth.Token.{api_key_hash}
use httpkvdb.Config.Settings.{load_env, value, from_values}
use httpkvdb.Storage.Accounts.{bootstrap}
use httpkvdb.Golang.Crypto.{toy_std}
use httpkvdb.Model.{Result, ok}
use httpkvdb.Storage.Snapshot.{Snapshot}
use httpkvdb.Storage.Disk.{
  load, persist, write_database, sync_userspace_files, sync_spaces, sync_records,
}
use httpkvdb.Storage.Store.{Store, open_store}
use httpkvdb.Storage.Atomic.{clone_snapshot}
use httpkvdb.Storage.Sound.{IsSound, empty-IsSound}
use httpkvdb.Storage.Sound.Methods.{Holds}
use httpkvdb.Http.Message.{not_found_page}
use httpkvdb.Http.Router.{Route}
use httpkvdb.Http.Server.{Server}
use httpkvdb.Program.{start, start_with, server_of}
use httpkvdb.Program.Life.{Event, request, tick, interrupt, live, run_main}
use httpkvdb.Program.Sound.{IsExact, run_main-IsSound}
use httpkvdb.Tests.World.{plain_json, at_time, toy_tokens, web, empty_disk}
use httpkvdb.Tests.Http.{put_x, settings, opened_store, first_store}

abbrev day : List (Event Snapshot)
day = request web put_x ∷ tick (λ tx_id. at_time 30) ∷ interrupt ∷ []

abbrev evening : Server Snapshot
evening = live (λ r. Route.protected) (λ r. not_found_page) day (server_of settings first_store)

opened :
    (store : Store Snapshot)
    → (open_store (at_time 5) empty_disk).0 ≡ ok store
    → opened_store ≡ store
unfolding open_store load persist write_database sync_userspace_files sync_spaces
opened store h = ok-inj h
  where
    ok-inj : {a b : Store Snapshot} → Path (Result (Store Snapshot)) (ok a) (ok b) → a ≡ b
    ok-inj p = cc

plain_json-IsExact : IsExact plain_json
unfolding clone_snapshot
plain_json-IsExact d d' h = cc

run_main-IsSound_example : IsSound toy_std evening.store.contents
unfolding run_main start start_with open_store load persist write_database sync_userspace_files
    sync_spaces bootstrap lookup member api_key_hash insert sync_records load_env value hex bytes_eq
    from_values
run_main-IsSound_example =
    run_main-IsSound (at_time 5) toy_tokens (λ path. empty_disk)
      (λ path store h. subst (Holds (at_time 5)) (opened store h) (empty-IsSound toy_std))
      (λ r. Route.protected) (λ r. not_found_page) (λ name. []) (λ b. none) [] none day evening
      ((refl, plain_json-IsExact), (tt, (tt, tt))) refl
