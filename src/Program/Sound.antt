-- ===== src/Program/Sound.antt =====
-- What the data is through the whole life of the program.
use httpkvdb.Base.{
  ℕ, ◌≡◌, ◌⊎◌, refl, sym, Option, some, List, [], ◌∷◌, ◌&&◌, ltb, All, inl, inr, Bool-cases,
}
use mathlib.Core.Path.{subst}
use httpkvdb.Base.Bytes.{Bytes, is_empty}
use httpkvdb.Golang.Crypto.{Std}
use httpkvdb.Golang.Stream.{Stream}
use httpkvdb.Model.{Transaction, Result-cases, ok}
use httpkvdb.Storage.Snapshot.{Snapshot}
use httpkvdb.Storage.Disk.{Json, Disk, Env}
use httpkvdb.Storage.Store.{Store, save, save_tx, open_store, list_txs}
use httpkvdb.Storage.Atomic.{clone_snapshot}
use httpkvdb.Storage.Sound.{IsSound, with_tx-IsSound}
use httpkvdb.Storage.Sound.Methods.{Holds, bootstrap-Holds}
use httpkvdb.Tx.Coordinator.{is_open, expire_if_needed, expire_all, expire_due}
use httpkvdb.Auth.Token.{TokenLib}
use httpkvdb.Config.Settings.{Config, load_env}
use httpkvdb.Config.EnvFile.{FileError, Loaded, loaded, refused, load_from_file}
use httpkvdb.Http.Message.{Request, Response}
use httpkvdb.Http.Server.{Server}
use httpkvdb.Http.Router.{Route, handler}
use httpkvdb.Http.Sound.{handler-Holds}
use httpkvdb.Program.{
  Started, started, ended, StartError, config_error, storage_failed, start, start_with, started_is,
  booted,
}
use httpkvdb.Program.Life.{Event, request, tick, interrupt, clean, live, run_main}

Loaded-cases :
    {A : Type 0} (x : Loaded A) → ((a : A) × (x ≡ loaded a)) ⊎ ((e : FileError) × (x ≡ refused e))
Loaded-cases (loaded a) = inl (a, refl)
Loaded-cases (refused e) = inr (e, refl)

Started-cases :
    {Doc : Type 0} (x : Started Doc)
    → ((s : Server Doc) × (x ≡ started s)) ⊎ ((e : StartError) × (x ≡ ended e))
Started-cases (started s) = inl (s, refl)
Started-cases (ended e) = inr (e, refl)

-- JSON that is read back is what was written.
abbrev pub IsExact : {Doc : Type 0} → Json Doc → Type 0
IsExact json = (d d' : Snapshot) → clone_snapshot json d ≡ some d' → d' ≡ d

-- The libraries behind an event.
abbrev pub IsUsual : {Doc : Type 0} → Std → Event Doc → Type 0
IsUsual std (request w r) = (w.env.std ≡ std) × IsExact w.env.json
IsUsual std (tick envs) = Unit {0}
IsUsual std interrupt = Unit {0}

module _ {Doc : Type 0} (std : Std) where
  expired-IsSound :
      (env : Env Doc) (t : Transaction) (s : Store Doc)
      → IsSound std s.contents
      → IsSound std (expire_if_needed env t s).2.contents
  unfolding expire_if_needed save_tx save
  expired-IsSound env t s h = elim (Bool-cases (is_open t.status && ltb t.deadline env.now)) [
    | inl y ↦ rw (y, expire_if_needed) (unfold save_tx save in with_tx-IsSound std s.contents h _)
    | inr n ↦ rw (n, expire_if_needed) h
  ]

  expire_all-IsSound :
      (envs : Bytes → Env Doc) (txs : List Transaction) (count : ℕ) (s : Store Doc)
      → IsSound std s.contents
      → IsSound std (expire_all envs txs count s).1.contents
  unfolding expire_all
  expire_all-IsSound envs [] count s h = h
  expire_all-IsSound envs (t ∷ txs) count s h =
      expire_all-IsSound envs txs _ _ (expired-IsSound (envs t.tx_id) t s h)

  module _ (route : Request → Route) (mux_answer : Request → Response) where
    live-IsSound :
        (events : List (Event Doc)) (s : Server Doc)
        → All (IsUsual std) events
        → IsSound std s.store.contents
        → IsSound std (live route mux_answer events s).store.contents
    unfolding live clean expire_due
    live-IsSound [] s usual h = h
    live-IsSound (request w r ∷ events) s ((same, exact), usual) h =
        live-IsSound events (handler w route mux_answer s r).1 usual (
          subst (λ x. IsSound x (handler w route mux_answer s r).1.store.contents) same
            (handler-Holds w route mux_answer s r
              (subst (λ x. IsSound x s.store.contents) (sym same) h) (exact s.store.contents)))
    live-IsSound (tick envs ∷ events) s (_, usual) h =
        live-IsSound events (clean envs s) usual
          (expire_all-IsSound envs (list_txs s.store) 0 s.store h)
    live-IsSound (interrupt ∷ events) s usual h = h

module _ {Doc : Type 0} (env : Env Doc) (lib : TokenLib) (disk : Bytes → Disk Doc)
    (files : (path : Bytes) (store : Store Doc)
      → (open_store env (disk path)).0 ≡ ok store
      → Holds env store) where
  not_started : {s : Server Doc} {e : StartError} → Path (Started Doc) (ended e) (started s) → ⊥
  not_started p = cc

  start_with-Holds :
      (cfg : Config) (s : Server Doc) → start_with env lib disk cfg ≡ started s → Holds env s.store
  unfolding start_with booted
  start_with-Holds cfg s h = elim (Result-cases (open_store env (disk cfg.storage_path)).0) [
    | inl (store, o) ↦
        subst (λ x. Holds env x.store) (sym (started_is env lib disk cfg s store h o))
          (bootstrap-Holds env store (files cfg.storage_path store o) _ _ _)
    | inr (e, o) ↦ absurd (not_started {e = storage_failed} (rw (o, start_with) at h))
  ]

  start-Holds :
      (getenv : Bytes → Bytes) (go_unquote : Bytes → Option Bytes) (config_path : Bytes)
      (file : Option Stream) (s : Server Doc)
      → start env lib disk getenv go_unquote config_path file ≡ started s
      → Holds env s.store
  unfolding start
  start-Holds getenv go_unquote config_path file s h = elim (Bool-cases (is_empty config_path)) [
    | inl y ↦ start_with-Holds (load_env getenv) s (rw (y, start) at h)
    | inr n ↦ elim (Loaded-cases (load_from_file go_unquote file)) [
      | inl (cfg, l) ↦ start_with-Holds cfg s (rw (n, start, l, start) at h)
      | inr (e, l) ↦ absurd (not_started {e = config_error e} (rw (n, start, l, start) at h))
    ]
  ]

  -- From files whose data, where it can be read, is sound, the data is sound after any start
  -- that succeeds and any sequence of requests and rounds of the expiry, with any failures of
  -- files: every table has one entry for each key, a record stands under its key in its
  -- userspace with the checksum and the type of its value, and every key, subject and
  -- transaction stands under its own name. JSON that is read back is what was written, and the
  -- hash function is the same.
  pub run_main-IsSound :
      (route : Request → Route) (mux_answer : Request → Response) (getenv : Bytes → Bytes)
      (go_unquote : Bytes → Option Bytes) (config_path : Bytes) (file : Option Stream)
      (events : List (Event Doc)) (s : Server Doc)
      → All (IsUsual env.std) events
      → run_main route mux_answer env lib disk getenv go_unquote config_path file events ≡ started s
      → IsSound env.std s.store.contents
  unfolding run_main
  run_main-IsSound route mux_answer getenv go_unquote config_path file events s usual h =
      elim (Started-cases (start env lib disk getenv go_unquote config_path file)) [
        | inl (s0, b) ↦
            subst (λ x. IsSound env.std x.store.contents) (started-inj (rw (b, run_main) at h))
              (live-IsSound env.std route mux_answer events s0 usual
                (start-Holds getenv go_unquote config_path file s0 b))
        | inr (e, b) ↦ absurd (not_started {e = e} (rw (b, run_main) at h))
      ]
    where
      started-inj : {a b : Server Doc} → Path (Started Doc) (started a) (started b) → a ≡ b
      started-inj p = cc
