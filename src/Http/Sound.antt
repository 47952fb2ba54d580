-- ===== src/Http/Sound.antt =====
-- Every request to the handler keeps the data sound.
use httpkvdb.Base.{refl, sym, ◌^◌, if◌then◌else◌, arith, inl, inr, Bool-cases, Option-cases}
use mathlib.Core.Path.{subst}
use httpkvdb.Base.Bytes.{Bytes, codes, bytes_eq, is_empty}
use httpkvdb.Base.Int.{pos}
use httpkvdb.Golang.Text.{cut, trim_prefix}
use httpkvdb.Golang.Stream.{limited}
use httpkvdb.Model.{Principal, Result-cases}
use httpkvdb.Storage.Store.{Store}
use httpkvdb.Storage.Accounts.{create_userspace, delete_userspace, replace_userspace_api_key_hash}
use httpkvdb.Storage.Sound.Methods.{
  Holds, put-Holds, delete-Holds, save_tx-Holds, import_store-Holds, create_userspace-Holds,
  delete_userspace-Holds, rotate-Holds,
}
use httpkvdb.Auth.Token.{api_key_hash}
use httpkvdb.Auth.Authenticator.{authenticate_request}
use httpkvdb.Tx.Outside.{IsFaithful}
use httpkvdb.Tx.Sound.{execute-Holds}
use httpkvdb.Http.Message.{Request, Response}
use httpkvdb.Http.Server.{Server, World, add_one}
use httpkvdb.Http.Kv.{handle_kv, userspace_of}
use httpkvdb.Http.Admin.{
  new_api_key, create_with_key, handle_create_userspace, handle_list_userspaces,
  handle_delete_userspace, rotate_to, handle_rotate, handle_list_userspace_keys, handle_admin_kv,
  handle_admin_kv_lem, admin_userspace, cut_or_all, handle_admin_userspace, handle_admin,
}
use httpkvdb.Http.Router.{Route, serve_route, counted, handler, protected_v1, handle_v1}
use httpkvdb.Http.After.{after_kv, v1_cases}

-- A request of the administration leaves the store as it is or does one step on it.
module _ {Doc : Type 0} (w : World Doc) (id : Bytes) (s : Server Doc) (Good : Store Doc → Type 0)
    (same : Good s.store)
    (created : (u user_id hash : Bytes) → Good (create_userspace w.env s.store u user_id hash).1)
    (deleted : (u : Bytes) → Good (delete_userspace w.env s.store u).1)
    (rekeyed : (u hash : Bytes) → Good (replace_userspace_api_key_hash w.env s.store u hash).1)
    (kept : (u : Bytes) (r : Request) (key : Bytes) → Good (handle_kv w id s r u key).1.store) where
  after_create : (r : Request) → Good (handle_create_userspace w id s r).1.store
  unfolding handle_create_userspace create_with_key
  after_create r = elim (Option-cases (w.userspace_request (limited (pos (2 ^ 20)) r.body))) [
    | inl h ↦ ground arith
    | inr (req, h) ↦ elim (Option-cases (new_api_key w id)) [
      | inl k ↦ ground arith
      | inr (key, k) ↦
          let user_id = if is_empty req.user_id then req.userspace_id else req.user_id in
          let hash = api_key_hash w.tokens key s.auth.api_key_pepper in
          ground (arith, created req.userspace_id user_id hash)
    ]
  ]

  after_delete : (u : Bytes) → Good (handle_delete_userspace w id s u).1.store
  unfolding handle_delete_userspace
  after_delete u = ground (arith, deleted u)

  after_rotate : (u : Bytes) → Good (handle_rotate w id s u).1.store
  unfolding handle_rotate rotate_to
  after_rotate u = elim (Option-cases (new_api_key w id)) [
    | inl k ↦ ground arith
    | inr (key, k) ↦
        let hash = api_key_hash w.tokens key s.auth.api_key_pepper in ground (arith, rekeyed u hash)
  ]

  after_keys : (u : Bytes) → Good (handle_list_userspace_keys w id s u).1.store
  unfolding handle_list_userspace_keys
  after_keys u = ground arith

  kept_admin :
      (u : Bytes) (r : Request) (key : Bytes) → Good (handle_admin_kv w id s r u key).1.store
  kept_admin u r key = rw (handle_admin_kv_lem w id s r u key) (kept u r key)

  after_userspace : (r : Request) (u rest : Bytes) → Good (admin_userspace w id s r u rest).1.store
  unfolding admin_userspace
  after_userspace r u rest = ground (
    arith,
    after_delete u,
    after_rotate u,
    after_keys u,
    kept_admin u r (trim_prefix rest (codes "kv/")),
  )

  after_admin_userspace :
      (r : Request) (path : Bytes) → Good (handle_admin_userspace w id s r path).1.store
  unfolding handle_admin_userspace
  after_admin_userspace r path =
      let (raw, rest) = cut_or_all w id path (cut b'/' path) in
      elim (Option-cases (userspace_of w id raw)) [
        | inl h ↦ ground arith
        | inr (u, h) ↦ ground (arith, after_userspace r u rest)
      ]

  pub after_admin :
      (r : Request) (p : Principal) (path : Bytes) → Good (handle_admin w id s r p path).1.store
  unfolding handle_admin handle_list_userspaces
  after_admin r p path =
      ground
        (arith, after_create r, after_admin_userspace r (trim_prefix path (codes "userspaces/")))

module _ {Doc : Type 0} (w : World Doc) (id : Bytes) (s : Server Doc) (sound : Holds w.env s.store)
    (faithful : IsFaithful w.env s.store) where
  kv-Holds :
      (u : Bytes) (r : Request) (key : Bytes) → Holds w.env (handle_kv w id s r u key).1.store
  kv-Holds u r key =
      after_kv w id s u (λ store auth. Holds w.env store) sound
        (λ key value ct. put-Holds w.env s.store sound u key value ct)
        (λ key. delete-Holds w.env s.store sound u key) r key

  v1-Holds : (r : Request) (p : Principal) → Holds w.env (handle_v1 w id s r p).1.store
  v1-Holds r p =
      let u = p.userspace_id in
      elim (v1_cases w id s u (λ store auth. Holds w.env store) sound
        (λ t. save_tx-Holds w.env s.store sound t)
        (λ t mine. execute-Holds w.env t s.store sound faithful) p refl
        (λ key value ct. put-Holds w.env s.store sound u key value ct)
        (λ key. delete-Holds w.env s.store sound u key)
        (λ records mode. import_store-Holds w.env s.store sound u records mode faithful) r) [
          | inr h ↦ h
          | inl is ↦
              subst (λ x. Holds w.env x.1.store) (sym is)
                (after_admin w id s (Holds w.env) sound (create_userspace-Holds w.env s.store sound)
                  (delete_userspace-Holds w.env s.store sound) (rotate-Holds w.env s.store sound)
                  kv-Holds r p _)
        ]

protected-Holds :
    {Doc : Type 0} (w : World Doc) (id : Bytes) (s : Server Doc) (r : Request)
    → Holds w.env s.store
    → IsFaithful w.env s.store
    → Holds w.env (protected_v1 w id s r).1.store
unfolding protected_v1
protected-Holds w id s r sound faithful =
    let auth = (authenticate_request w.tokens w.env.now s.store s.auth r.header).1 in
    elim (Result-cases (authenticate_request w.tokens w.env.now s.store s.auth r.header).0) [
      | inl (p, h) ↦
          rw (h, protected_v1) (v1-Holds w id (record s { auth = auth }) sound faithful r p)
      | inr (e, h) ↦ rw (h, protected_v1) sound
    ]

module _ {Doc : Type 0} (w : World Doc) (route : Request → Route)
    (mux_answer : Request → Response) where
  route-Holds :
      (id : Bytes) (s : Server Doc) (r : Request) (to : Route)
      → Holds w.env s.store
      → IsFaithful w.env s.store
      → Holds w.env (serve_route w route mux_answer id s r to).1.store
  unfolding serve_route
  route-Holds id s r Route.healthz_route sound faithful = sound
  route-Holds id s r Route.readyz_route sound faithful = sound
  route-Holds id s r Route.metrics_route sound faithful = sound
  route-Holds id s r Route.protected sound faithful = protected-Holds w id s r sound faithful
  route-Holds id s r Route.unmatched sound faithful = sound

  pub handler-Holds :
      (s : Server Doc) (r : Request)
      → Holds w.env s.store
      → IsFaithful w.env s.store
      → Holds w.env (handler w route mux_answer s r).1.store
  unfolding handler counted
  handler-Holds s r sound faithful =
      let m = s.metrics in
      let s' : Server Doc = record s { metrics = record m { requests = add_one m.requests } } in
      elim (Bool-cases (bytes_eq r.method (codes "OPTIONS"))) [
        | inl o ↦ rw (o, handler) sound
        | inr o ↦ rw (o, handler) (route-Holds _ s' r (route r) sound faithful)
      ]
