-- ===== src/Http/Creation.antt =====
-- Creating and deleting a userspace over HTTP: who is let in afterwards.
use httpkvdb.Base.{◌≡◌, refl, sym, ◌∙◌, ap, false, [], if◌then◌else◌, arith, inl, inr}
use httpkvdb.Base.Bytes.{Bytes, bytes_eq, bytes_key, codes, is_empty}
use httpkvdb.Base.Dict.{insert, lookup-insert}
use httpkvdb.Model.{Result, Result-cases, Time, Principal, ok, err, unauthorized, not_found}
use httpkvdb.Validate.{validate_userspace_id}
use httpkvdb.Storage.Snapshot.{userspace_exists}
use httpkvdb.Storage.Store.{Store, save}
use httpkvdb.Storage.Accounts.{
  in_space, principal_of, active_key, create_userspace, delete_userspace, resolve_api_key_hash,
  resolve_jwt_subject,
}
use httpkvdb.Storage.Erasure.{HasTables, IsWithout, delete_userspace_erases}
use httpkvdb.Auth.Token.{api_key_hash, verify_jwt}
use httpkvdb.Auth.Authenticator.{invalidate, authenticate_request}
use httpkvdb.Auth.Coherent.{IsCoherent, IsCoherent-empty}
use httpkvdb.Auth.Refines.{
  Credential, api_key, token, nothing, bearer, credential_of, authenticate_request_refines,
}
use httpkvdb.Http.Server.{Server, World}
use httpkvdb.Http.Admin.{create_with_key, handle_delete_userspace}

-- An answer without those of the userspace `u`.
abbrev pub expelled : Bytes → Result Principal → Result Principal
expelled u (ok p) = if in_space u p then err unauthorized else ok p
expelled u (err e) = err e

module _ {Doc : Type 0} (w : World Doc) (id : Bytes) (s : Server Doc) (u : Bytes) where
  -- Who shows a credential, by the store of `s`.
  abbrev pub sender_before : Time → Credential → Result Principal
  sender_before now c = bearer w.tokens now s.store s.auth c

  -- The authenticator after Invalidate asks the store alone.
  invalidated :
      (s' : Server Doc)
      → s'.auth ≡ invalidate s.auth
      → (now : Time) (header : Bytes → Bytes)
      → (authenticate_request w.tokens now s'.store s'.auth header).0
        ≡ bearer w.tokens now s'.store s.auth (credential_of header)
  unfolding invalidate
  invalidated s' fresh now header =
      let coh : IsCoherent s'.store s'.auth.cache = rw fresh (IsCoherent-empty s'.store) in
      (authenticate_request_refines w.tokens now s'.store s'.auth header coh).0
      ∙ ap (λ a. bearer w.tokens now s'.store a (credential_of header)) fresh
      ∙ same_fields (credential_of header)
    where
      same_fields :
          (c : Credential)
          → bearer w.tokens now s'.store (record s.auth { cache = [] }) c
            ≡ bearer w.tokens now s'.store s.auth c
      same_fields (api_key key) = unfold bearer in refl
      same_fields (token t) = unfold bearer in refl
      same_fields nothing = unfold bearer in refl

  bearer-without :
      (store : Store Doc)
      → IsWithout u s.store store
      → (now : Time) (c : Credential)
      → bearer w.tokens now store s.auth c ≡ expelled u (sender_before now c)
  unfolding bearer
  bearer-without store without now (api_key key) =
      ground (arith, without.keys (api_key_hash w.tokens key s.auth.api_key_pepper))
  bearer-without store without now (token t) =
      elim (Result-cases
        (verify_jwt w.tokens s.auth.jwt_secret s.auth.issuer s.auth.audience now t)) [
          | inl (subject, h) ↦ ground (arith, without.subjects subject)
          | inr (e, h) ↦ ground arith
        ]
  bearer-without store without now nothing = refl

  delete_success :
      (handle_delete_userspace w id s u).0.status ≡ 204
      → ((delete_userspace w.env s.store u).0 ≡ ok tt)
        × ((handle_delete_userspace w id s u).1.store ≡ (delete_userspace w.env s.store u).1)
        × ((handle_delete_userspace w id s u).1.auth ≡ invalidate s.auth)
  unfolding handle_delete_userspace
  delete_success h = ground arith

  -- After a DELETE of a userspace that answers 204, a request at any later time is answered by
  -- what the store said before, save that those from the userspace are unauthorized. The tables
  -- have one entry for each key.
  pub delete_expels :
      (now : Time) (header : Bytes → Bytes)
      → HasTables s.store.contents
      → (handle_delete_userspace w id s u).0.status ≡ 204
      → (let s' = (handle_delete_userspace w id s u).1 in
          (authenticate_request w.tokens now s'.store s'.auth header).0
          ≡ expelled u (sender_before now (credential_of header)))
  delete_expels now header t h =
      let (done, stored, fresh) = delete_success h in
      let s' = (handle_delete_userspace w id s u).1 in
      invalidated s' fresh now header
      ∙ ap (λ store. bearer w.tokens now store s.auth (credential_of header)) stored
      ∙ elim (delete_userspace_erases w.env s.store u t) [
        | inl (there, without) ↦ bearer-without _ without now (credential_of header)
        | inr (missing, failed) ↦ absurd (clash (sym done ∙ ap (λ x. x.0) failed))
      ]
    where
      clash : Path (Result (Unit {0})) (ok tt) (err not_found) → ⊥
      clash p = cc

  module _ (user_id new : Bytes) where
    abbrev new_hash : Bytes
    new_hash = api_key_hash w.tokens new s.auth.api_key_pepper

    -- Who shows a credential after the creation with the key `new`.
    abbrev pub joined : Time → Credential → Result Principal
    joined now (api_key key) =
        if is_empty key
        then err unauthorized
        else if bytes_eq new_hash (api_key_hash w.tokens key s.auth.api_key_pepper)
        then ok (principal_of user_id u (codes "user") (codes "apikey"))
        else sender_before now (api_key key)
    joined now (token t) = sender_before now (token t)
    joined now nothing = err unauthorized

    create_success :
        (create_with_key w id s u user_id new).0.status ≡ 201
        → is_empty user_id ≡ false
        → ((create_with_key w id s u user_id new).1.store.contents.api_keys
            ≡ insert s.store.contents.api_keys new_hash
                (active_key new_hash (principal_of user_id u (codes "user") (codes "apikey"))))
          × ((create_with_key w id s u user_id new).1.store.contents.jwt_subjects
              ≡ s.store.contents.jwt_subjects)
          × ((create_with_key w id s u user_id new).1.auth ≡ invalidate s.auth)
          × (userspace_exists s.store.contents u ≡ false)
    unfolding create_with_key create_userspace save api_key_hash
    create_success h named = elim (Result-cases (validate_userspace_id u)) [
      | inr (e, v) ↦ ground arith
      | inl (done, v) ↦ ground arith
    ]

    bearer-joined :
        (store : Store Doc)
        → store.contents.api_keys
          ≡ insert s.store.contents.api_keys new_hash
              (active_key new_hash (principal_of user_id u (codes "user") (codes "apikey")))
        → store.contents.jwt_subjects ≡ s.store.contents.jwt_subjects
        → (now : Time) (c : Credential) → bearer w.tokens now store s.auth c ≡ joined now c
    unfolding bearer resolve_api_key_hash resolve_jwt_subject
    bearer-joined store keys subjects now (api_key key) =
        let hash = api_key_hash w.tokens key s.auth.api_key_pepper in
        let p = principal_of user_id u (codes "user") (codes "apikey") in
        rw keys (
          ground
            (arith, lookup-insert s.store.contents.api_keys new_hash (active_key new_hash p) hash))
    bearer-joined store keys subjects now (token t) =
        elim (Result-cases
          (verify_jwt w.tokens s.auth.jwt_secret s.auth.issuer s.auth.audience now t)) [
            | inl (subject, h) ↦ ground arith
            | inr (e, h) ↦ ground arith
          ]
    bearer-joined store keys subjects now nothing = refl

    -- After a creation that answers 201 for a user with a name, the userspace was not there
    -- before, and a request at any later time that shows the new key, if that is not empty, is
    -- from a plain user of it. Every other key and every token is answered by what the store
    -- said before.
    pub create_joins :
        (now : Time) (header : Bytes → Bytes)
        → (create_with_key w id s u user_id new).0.status ≡ 201
        → is_empty user_id ≡ false
        → (userspace_exists s.store.contents u ≡ false)
          × (let s' = (create_with_key w id s u user_id new).1 in
              (authenticate_request w.tokens now s'.store s'.auth header).0
              ≡ joined now (credential_of header))
    create_joins now header h named =
        let (keys, subjects, fresh, absent) = create_success h named in
        let s' = (create_with_key w id s u user_id new).1 in
        (
          absent,
          invalidated s' fresh now header
              ∙ bearer-joined s'.store keys subjects now (credential_of header),
        )
