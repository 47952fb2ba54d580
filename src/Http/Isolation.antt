-- ===== src/Http/Isolation.antt =====
-- What the requests of a user without the role admin can reach.
use httpkvdb.Base.{◌≡◌, refl, sym, ◌∙◌, false, ◌⊎◌, inl, inr, ap}
use mathlib.Core.Path.{subst}
use httpkvdb.Golang.Text.{trim_prefix}
use httpkvdb.Http.Router.{api_path, handle_v1, protected_v1}
use httpkvdb.Http.Admin.{handle_admin, has_role}
use httpkvdb.Base.Bytes.{Bytes, codes}
use httpkvdb.Model.{Principal, Result, ok}
use httpkvdb.Storage.Store.{Store}
use httpkvdb.Tx.Outside.{
  IsOutside, IsFaithful, Keeps, Keeps-refl, Keeps-put, Keeps-delete, Keeps-save_tx, Keeps-execute,
  Keeps-import_store,
}
use httpkvdb.Storage.Accounts.{resolve_api_key_hash, resolve_jwt_subject}
use httpkvdb.Tx.Execute.{execute}
use httpkvdb.Auth.Cache.{Cache}
use httpkvdb.Auth.Authenticator.{Authenticator, authenticate_request}
use httpkvdb.Auth.Coherent.{IsCoherent}
use httpkvdb.Auth.Refines.{bearer, credential_of, authenticate_request_refines}
use httpkvdb.Http.Message.{Request}
use httpkvdb.Http.Server.{Server, World}
use httpkvdb.Http.After.{v1_cases}

module _ {Doc : Type 0} (w : World Doc) (id : Bytes) (s : Server Doc) (p : Principal) where
  -- The session of `p` after a request: the other userspaces and the credentials are as they were,
  -- and the authenticator too.
  abbrev pub IsSession : Store Doc → Authenticator → Type 0
  IsSession store auth = IsOutside p.userspace_id s.store.contents store.contents × (auth ≡ s.auth)

  -- A request is one of the administration, or leaves such a session.
  pub IsSession-cases :
      (r : Request)
      → IsFaithful w.env s.store
      → (handle_v1 w id s r p
          ≡ handle_admin w id s r p (trim_prefix (api_path r.path) (codes "/admin/")))
        ⊎ IsSession (handle_v1 w id s r p).1.store (handle_v1 w id s r p).1.auth
  IsSession-cases r faithful =
      let u = p.userspace_id in
      v1_cases w id s u IsSession (Keeps-refl w.env u s.store, refl)
        (λ t. (Keeps-save_tx w.env u s.store t, refl))
        (λ t mine. (
          subst (λ v. Keeps w.env v s.store (execute w.env t s.store).1) mine
              (Keeps-execute w.env t s.store faithful),
          refl,
        ))
        p refl (λ key value ct. (Keeps-put w.env u s.store key value ct, refl))
        (λ key. (Keeps-delete w.env u s.store key, refl))
        (λ records mode. (Keeps-import_store w.env u s.store records mode faithful, refl)) r

  admin_refused :
      (r : Request) (path : Bytes)
      → has_role p (codes "admin") ≡ false
      → (handle_admin w id s r p path).1 ≡ s
  unfolding handle_admin
  admin_refused r path h = rw h refl

  user-IsSession :
      (r : Request)
      → has_role p (codes "admin") ≡ false
      → IsFaithful w.env s.store
      → IsSession (handle_v1 w id s r p).1.store (handle_v1 w id s r p).1.auth
  user-IsSession r plain faithful = elim (IsSession-cases r faithful) [
    | inr kept ↦ kept
    | inl is ↦
        subst (λ x. IsSession x.store x.auth) (sym (ap (λ x. x.1) is ∙ admin_refused r _ plain))
          (Keeps-refl w.env p.userspace_id s.store, refl)
  ]

-- The same credentials say the same.
pub IsCoherent-credentials :
    {Doc : Type 0} (s s' : Store Doc) (c : Cache)
    → s'.contents.api_keys ≡ s.contents.api_keys
    → s'.contents.jwt_subjects ≡ s.contents.jwt_subjects
    → IsCoherent s c
    → IsCoherent s' c
unfolding resolve_api_key_hash resolve_jwt_subject
IsCoherent-credentials s s' c keys subjects coh k ent h = rw (keys, subjects) (coh k ent h)

module _ {Doc : Type 0} (w : World Doc) (id : Bytes) (s : Server Doc) (r : Request) where
  -- Who the request is from, by the store.
  abbrev pub sender : Result Principal
  sender = bearer w.tokens w.env.now s.store s.auth (credential_of r.header)

  -- A request from a user without the role admin, on any path and with any method, leaves every
  -- key of every other userspace, all API keys and all JWT subjects as they were, and the cache
  -- of the authenticator in agreement with the store. The cache agreed with the store before,
  -- and a JSON copy of the data, if one is made, is the data.
  pub request_isolated :
      (p : Principal)
      → IsCoherent s.store s.auth.cache
      → IsFaithful w.env s.store
      → sender ≡ ok p
      → has_role p (codes "admin") ≡ false
      → (let s' = (protected_v1 w id s r).1 in
          IsOutside p.userspace_id s.store.contents s'.store.contents
          × IsCoherent s'.store s'.auth.cache)
  unfolding protected_v1
  request_isolated p coh faithful who plain =
      let (answer, coh') =
        authenticate_request_refines w.tokens w.env.now s.store s.auth r.header coh in
      let auth = (authenticate_request w.tokens w.env.now s.store s.auth r.header).1 in
      let (outside, kept) = user-IsSession w id (record s { auth = auth }) p r plain faithful in
      rw (answer ∙ who, protected_v1)
        (
          outside,
          IsCoherent-credentials s.store _ _ outside.keys outside.subjects
              (subst (λ a. IsCoherent s.store a.cache) (sym kept) coh'),
        )
