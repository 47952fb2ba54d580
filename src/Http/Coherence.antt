-- ===== src/Http/Coherence.antt =====
-- The cache of the authenticator beside the store, through all requests.
use httpkvdb.Base.{
  ◌≡◌, ◌⊎◌, ◌^◌, refl, sym, Bool, true, [], leb, if◌then◌else◌, arith, inl, inr, Bool-cases,
  Option-cases,
}
use mathlib.Core.Path.{subst}
use httpkvdb.Base.Bytes.{Bytes, codes, bytes_eq, is_empty}
use httpkvdb.Base.Int.{pos}
use httpkvdb.Golang.Text.{cut, trim_prefix}
use httpkvdb.Golang.Stream.{limited}
use httpkvdb.Model.{Principal, Result-cases}
use httpkvdb.Storage.Store.{Store}
use httpkvdb.Storage.Accounts.{create_userspace, delete_userspace, replace_userspace_api_key_hash}
use httpkvdb.Auth.Token.{api_key_hash}
use httpkvdb.Auth.Authenticator.{Authenticator, invalidate, authenticate_request}
use httpkvdb.Auth.Coherent.{IsCoherent, IsCoherent-empty}
use httpkvdb.Auth.Refines.{authenticate_request_refines}
use httpkvdb.Tx.Outside.{IsFaithful, Keeps-refl, Keeps-put, Keeps-delete}
use httpkvdb.Http.Message.{Request, Response}
use httpkvdb.Http.Server.{Server, World, add_one}
use httpkvdb.Http.Kv.{handle_kv, userspace_of}
use httpkvdb.Http.Admin.{
  new_api_key, create_with_key, handle_create_userspace, handle_list_userspaces,
  handle_delete_userspace, rotate_to, handle_rotate, handle_list_userspace_keys, handle_admin_kv,
  handle_admin_kv_lem, admin_userspace, cut_or_all, handle_admin_userspace, handle_admin,
}
use httpkvdb.Http.Router.{Route, serve_route, counted, handler, protected_v1, handle_v1}
use httpkvdb.Http.After.{after_kv}
use httpkvdb.Http.Isolation.{IsSession-cases, IsSession, IsCoherent-credentials}

-- An answer of 400 or more.
abbrev pub is_failure : Response → Bool
is_failure r = leb 400 r.status

module _ {Doc : Type 0} (w : World Doc) (id : Bytes) (s : Server Doc)
    (Good : Store Doc → Authenticator → Type 0) (same : Good s.store s.auth)
    (cleared : (store : Store Doc) → Good store (invalidate s.auth)) where
  -- A failure, or a good state.
  abbrev Answered : Response × Server Doc → Type 0
  Answered x = (is_failure x.0 ≡ true) ⊎ Good x.1.store x.1.auth

  good_create : (r : Request) → Answered (handle_create_userspace w id s r)
  unfolding handle_create_userspace create_with_key
  good_create r = elim (Option-cases (w.userspace_request (limited (pos (2 ^ 20)) r.body))) [
    | inl h ↦ ground arith
    | inr (req, h) ↦ elim (Option-cases (new_api_key w id)) [
      | inl k ↦ ground arith
      | inr (key, k) ↦
          let user_id = if is_empty req.user_id then req.userspace_id else req.user_id in
          let hash = api_key_hash w.tokens key s.auth.api_key_pepper in
          ground (arith, cleared (create_userspace w.env s.store req.userspace_id user_id hash).1)
    ]
  ]

  good_delete : (u : Bytes) → Answered (handle_delete_userspace w id s u)
  unfolding handle_delete_userspace
  good_delete u = ground (arith, cleared (delete_userspace w.env s.store u).1)

  good_rotate : (u : Bytes) → Answered (handle_rotate w id s u)
  unfolding handle_rotate rotate_to
  good_rotate u = elim (Option-cases (new_api_key w id)) [
    | inl k ↦ ground arith
    | inr (key, k) ↦
        let hash = api_key_hash w.tokens key s.auth.api_key_pepper in
        ground (arith, cleared (replace_userspace_api_key_hash w.env s.store u hash).1)
  ]

  good_keys : (u : Bytes) → Answered (handle_list_userspace_keys w id s u)
  unfolding handle_list_userspace_keys
  good_keys u = ground arith

  module _
      (kept : (u : Bytes) (r : Request) (key : Bytes)
        → Good (handle_kv w id s r u key).1.store (handle_kv w id s r u key).1.auth) where
    kept_admin :
        (u : Bytes) (r : Request) (key : Bytes)
        → Good (handle_admin_kv w id s r u key).1.store (handle_admin_kv w id s r u key).1.auth
    kept_admin u r key = rw (handle_admin_kv_lem w id s r u key) (kept u r key)

    good_userspace : (r : Request) (u rest : Bytes) → Answered (admin_userspace w id s r u rest)
    unfolding admin_userspace
    good_userspace r u rest = ground (
      arith,
      good_delete u,
      good_rotate u,
      good_keys u,
      kept_admin u r (trim_prefix rest (codes "kv/")),
    )

    good_admin_userspace :
        (r : Request) (path : Bytes) → Answered (handle_admin_userspace w id s r path)
    unfolding handle_admin_userspace
    good_admin_userspace r path =
        let (raw, rest) = cut_or_all w id path (cut b'/' path) in
        elim (Option-cases (userspace_of w id raw)) [
          | inl h ↦ ground arith
          | inr (u, h) ↦ ground (arith, good_userspace r u rest)
        ]

    pub good_admin :
        (r : Request) (p : Principal) (path : Bytes) → Answered (handle_admin w id s r p path)
    unfolding handle_admin handle_list_userspaces
    good_admin r p path =
        ground
          (arith, good_create r, good_admin_userspace r (trim_prefix path (codes "userspaces/")))

module _ {Doc : Type 0} (w : World Doc) (id : Bytes) where
  abbrev Agrees : Store Doc → Authenticator → Type 0
  Agrees store auth = IsCoherent store auth.cache

  abbrev Settled : Response × Server Doc → Type 0
  Settled x = (is_failure x.0 ≡ true) ⊎ Agrees x.1.store x.1.auth

  -- The same credentials and the same authenticator.
  session-Agrees :
      (s : Server Doc) (p : Principal) (store : Store Doc) (auth : Authenticator)
      → Agrees s.store s.auth
      → IsSession w id s p store auth
      → Agrees store auth
  session-Agrees s p store auth coh (outside, kept) =
      IsCoherent-credentials s.store store auth.cache outside.keys outside.subjects
        (subst (λ a. IsCoherent s.store a.cache) (sym kept) coh)

  kv-Agrees :
      (s : Server Doc)
      → Agrees s.store s.auth
      → (u : Bytes) (r : Request) (key : Bytes)
      → Agrees (handle_kv w id s r u key).1.store (handle_kv w id s r u key).1.auth
  kv-Agrees s coh u r key =
      let p : Principal = record { user_id = []; userspace_id = u; roles = []; auth_method = [] } in
      session-Agrees s p _ _ coh (
        after_kv w id s u (IsSession w id s p) (Keeps-refl w.env u s.store, refl)
          (λ key value ct. (Keeps-put w.env u s.store key value ct, refl))
          (λ key. (Keeps-delete w.env u s.store key, refl)) r key)

  v1-Settled :
      (s : Server Doc) (r : Request) (p : Principal)
      → Agrees s.store s.auth
      → IsFaithful w.env s.store
      → Settled (handle_v1 w id s r p)
  v1-Settled s r p coh faithful = elim (IsSession-cases w id s p r faithful) [
    | inr kept ↦ inr (session-Agrees s p _ _ coh kept)
    | inl is ↦ subst Settled (sym is) (
        good_admin w id s Agrees coh (λ store. unfold invalidate in IsCoherent-empty store)
          (kv-Agrees s coh) r p _)
  ]

  protected-Settled :
      (s : Server Doc) (r : Request)
      → Agrees s.store s.auth
      → IsFaithful w.env s.store
      → Settled (protected_v1 w id s r)
  unfolding protected_v1
  protected-Settled s r coh faithful =
      let (answer, coh') =
        authenticate_request_refines w.tokens w.env.now s.store s.auth r.header coh in
      let auth = (authenticate_request w.tokens w.env.now s.store s.auth r.header).1 in
      elim (Result-cases (authenticate_request w.tokens w.env.now s.store s.auth r.header).0) [
        | inl (p, h) ↦
            rw (h, protected_v1) (v1-Settled (record s { auth = auth }) r p coh' faithful)
        | inr (e, h) ↦ rw (h, protected_v1) (inr coh')
      ]

module _ {Doc : Type 0} (w : World Doc) (route : Request → Route)
    (mux_answer : Request → Response) where
  route-Settled :
      (id : Bytes) (s : Server Doc) (r : Request) (to : Route)
      → IsCoherent s.store s.auth.cache
      → IsFaithful w.env s.store
      → Settled w id (serve_route w route mux_answer id s r to)
  unfolding serve_route
  route-Settled id s r Route.healthz_route coh faithful = inr coh
  route-Settled id s r Route.readyz_route coh faithful = inr coh
  route-Settled id s r Route.metrics_route coh faithful = inr coh
  route-Settled id s r Route.protected coh faithful = protected-Settled w id s r coh faithful
  route-Settled id s r Route.unmatched coh faithful = inr coh

  -- After any request of anyone to the handler, on any path and with any method, every entry of
  -- the cache says what the store says, or the answer is 400 or more. The entries said so
  -- before, and a JSON copy of the data, if one is made, is the data.
  pub handler-IsCoherent :
      (s : Server Doc) (r : Request)
      → IsCoherent s.store s.auth.cache
      → IsFaithful w.env s.store
      → (let (answer, s') = handler w route mux_answer s r in
          (is_failure answer ≡ true) ⊎ IsCoherent s'.store s'.auth.cache)
  unfolding handler counted
  handler-IsCoherent s r coh faithful =
      let m = s.metrics in
      elim (Bool-cases (bytes_eq r.method (codes "OPTIONS"))) [
        | inl o ↦ rw (o, handler) (inr coh)
        | inr o ↦
            rw (o, handler)
              (route-Settled _ (record s { metrics = record m { requests = add_one m.requests } }) r
                (route r) coh faithful)
      ]
