-- ===== src/Storage/Accounts.antt =====
-- Userspaces and credentials: the methods of Store behind Bootstrap, authentication and the
-- administration of userspaces.
use httpkvdb.Base.{
  ℕ, ◌+◌, Bool, true, false, not, ◌&&◌, ◌||◌, Option, none, some, List, [], ◌∷◌, length, map,
  if◌then◌else◌,
}
use httpkvdb.Base.Bytes.{Bytes, codes, bytes_eq, bytes_key, bytes_lt, is_empty}
use httpkvdb.Base.Dict.{Dict, lookup, insert, delete as delete_entry, delete_if, member}
use httpkvdb.Golang.Sort.{sort}
use httpkvdb.Model.{Principal, Result, ok, err, not_found, already_exists}
use httpkvdb.Validate.{validate_userspace_id}
use httpkvdb.Storage.Snapshot.{
  ApiKeyRecord, JwtSubjectRecord, Space, Snapshot, space_of, userspace_exists,
}
use httpkvdb.Storage.Disk.{Env}
use httpkvdb.Storage.Store.{Store, save}

-- The record that holds an active key or subject.
abbrev pub active_key : Bytes → Principal → ApiKeyRecord
active_key hash p = record { hash = hash; principal = p; active = true }

abbrev pub active_subject : Bytes → Principal → JwtSubjectRecord
active_subject subject p = record { subject = subject; principal = p; active = true }

abbrev pub principal_of : Bytes → Bytes → Bytes → Bytes → Principal
principal_of user_id u role auth_method = record {
  user_id = user_id;
  userspace_id = u;
  roles = role ∷ [];
  auth_method = auth_method;
}

abbrev pub in_space : Bytes → Principal → Bool
in_space u p = bytes_eq p.userspace_id u

-- The three guarded writes of Bootstrap, each with whether it changed the data.
abbrev pub boot_space : Bytes → Snapshot → Snapshot × Bool
boot_space u d = elim (lookup d.userspaces u) [
  | none ↦ (record d { userspaces = insert d.userspaces u [] }, true)
  | some space ↦ (d, false)
]

abbrev pub boot_key : Bytes → Bytes → Bytes → Snapshot → Snapshot × Bool
boot_key user_id u hash d =
    let p = principal_of user_id u (codes "admin") (codes "apikey") in
    if is_empty hash || member d.api_keys hash
    then (d, false)
    else (record d { api_keys = insert d.api_keys hash (active_key hash p) }, true)

abbrev pub boot_subject : Bytes → Bytes → Snapshot → Snapshot × Bool
boot_subject user_id u d =
    let p = principal_of user_id u (codes "admin") (codes "jwt") in
    if member d.jwt_subjects user_id then (d, false) else (
      record d { jwt_subjects = insert d.jwt_subjects user_id (active_subject user_id p) },
      true,
    )

abbrev with_key : Bytes → Principal → Snapshot → Snapshot
with_key hash p d =
    if is_empty hash then d else record d { api_keys = insert d.api_keys hash (active_key hash p) }

-- What is left of the data after the deletes of DeleteUserspace.
unfoldable pub without_userspace : Snapshot → Bytes → Snapshot
without_userspace d u = record d {
  userspaces = delete_entry d.userspaces u;
  api_keys = delete_if (λ rec. in_space u rec.principal) d.api_keys;
  jwt_subjects = delete_if (λ rec. in_space u rec.principal) d.jwt_subjects;
  txs = delete_if (λ tx. bytes_eq tx.userspace_id u) d.txs;
}

-- The user of the last key of the userspace that names one.
unfoldable pub owner_of : Bytes → Bytes → List (Bytes × ApiKeyRecord) → Bytes
owner_of u user_id [] = user_id
owner_of u user_id ((hash, rec) ∷ keys) =
    let p = rec.principal in
    owner_of u (if in_space u p && not (is_empty p.user_id) then p.user_id else user_id) keys

abbrev pub ensure_space : Snapshot → Bytes → Dict Bytes Space
ensure_space d u = elim (lookup d.userspaces u) [
  | none ↦ insert d.userspaces u []
  | some space ↦ d.userspaces
]

abbrev with_method : Bytes → Bool → Principal → Option Principal
with_method method active p = if active then some (record p { auth_method = method }) else none

pub record UserspaceInfo : Type 0 where
  pub userspace_id : Bytes
  pub user_id : Bytes
  pub key_count : ℕ
  pub api_key_count : ℕ

abbrev zero_info : UserspaceInfo
zero_info = record { userspace_id = []; user_id = []; key_count = 0; api_key_count = 0 }

abbrev Infos : Type 0
Infos = Dict Bytes UserspaceInfo

-- The first loop of ListUserspaces.
unfoldable pub infos_of_spaces : List (Bytes × Space) → Infos → Infos
infos_of_spaces [] infos = infos
infos_of_spaces ((u, records) ∷ rest) infos =
    let info : UserspaceInfo = record {
      userspace_id = u;
      user_id = u;
      key_count = length records;
      api_key_count = 0;
    } in
    infos_of_spaces rest (insert infos u info)

abbrev info_at : Option UserspaceInfo → UserspaceInfo
info_at none = zero_info
info_at (some info) = info

abbrev name_info : Snapshot → Bytes → UserspaceInfo → UserspaceInfo
name_info d u info =
    if is_empty info.userspace_id
    then record info { userspace_id = u; key_count = length (space_of d u) }
    else info

abbrev own_info : Bytes → UserspaceInfo → UserspaceInfo
own_info user_id info =
    if is_empty info.user_id || bytes_eq info.user_id info.userspace_id
    then record info { user_id = user_id }
    else info

-- One round of the second loop, for an active key.
unfoldable pub count_key : Snapshot → Infos → Principal → Infos
count_key d infos p =
    let info =
      own_info p.user_id (name_info d p.userspace_id (info_at (lookup infos p.userspace_id))) in
    insert infos info.userspace_id (record info { api_key_count = info.api_key_count + 1 })

unfoldable pub count_keys : Snapshot → List (Bytes × ApiKeyRecord) → Infos → Infos
unfolding count_key
count_keys d [] infos = infos
count_keys d ((hash, rec) ∷ keys) infos =
    count_keys d keys (if rec.active then count_key d infos rec.principal else infos)

unfoldable pub list_userspaces : {Doc : Type 0} → Store Doc → List UserspaceInfo
unfolding infos_of_spaces count_keys
list_userspaces s =
    let d = s.contents in
    let infos = count_keys d d.api_keys (infos_of_spaces d.userspaces []) in
    sort (λ a b. bytes_lt a.userspace_id b.userspace_id) (map (λ entry. entry.1) infos)

module _ {Doc : Type 0} (env : Env Doc) where
  unfoldable pub bootstrap : Store Doc → Bytes → Bytes → Bytes → Result (Unit {0}) × Store Doc
  unfolding save
  bootstrap s user_id u hash =
      let (d1, c1) = boot_space u s.contents in
      let (d2, c2) = boot_key user_id u hash d1 in
      let (d3, c3) = boot_subject user_id u d2 in
      if c1 || c2 || c3 then save env s d3 else (ok tt, s)

  unfoldable pub upsert_api_key_hash : Store Doc → Bytes → Principal → Result (Unit {0}) × Store Doc
  unfolding save
  upsert_api_key_hash s hash p =
      let d = s.contents in
      let p' = record p { auth_method = codes "apikey" } in
      save env s (record d { api_keys = insert d.api_keys hash (active_key hash p') })

  unfoldable pub upsert_jwt_subject : Store Doc → Bytes → Principal → Result (Unit {0}) × Store Doc
  unfolding save
  upsert_jwt_subject s subject p =
      let d = s.contents in
      let p' = record p { auth_method = codes "jwt" } in
      save env s
        (record d { jwt_subjects = insert d.jwt_subjects subject (active_subject subject p') })

  unfoldable pub create_userspace :
      Store Doc → Bytes → Bytes → Bytes → Result (Unit {0}) × Store Doc
  unfolding save
  create_userspace s u user_id hash = elim (validate_userspace_id u) [
    | err e ↦ (err e, s)
    | ok _ ↦
        let d = s.contents in
        let owner = if is_empty user_id then u else user_id in
        let p = principal_of owner u (codes "user") (codes "apikey") in
        if userspace_exists d u
        then (err already_exists, s)
        else save env s (with_key hash p (record d { userspaces = insert d.userspaces u [] }))
  ]

  unfoldable pub delete_userspace : Store Doc → Bytes → Result (Unit {0}) × Store Doc
  unfolding save without_userspace
  delete_userspace s u =
      if userspace_exists s.contents u
      then save env s (without_userspace s.contents u)
      else (err not_found, s)

  unfoldable pub replace_userspace_api_key_hash :
      Store Doc → Bytes → Bytes → (Principal × Result (Unit {0})) × Store Doc
  unfolding save owner_of
  replace_userspace_api_key_hash s u hash =
      let d = s.contents in
      let p = principal_of (owner_of u u d.api_keys) u (codes "user") (codes "apikey") in
      let keys = delete_if (λ rec. in_space u rec.principal) d.api_keys in
      let no_one : Principal = record {
        user_id = [];
        userspace_id = [];
        roles = [];
        auth_method = [];
      } in
      if userspace_exists d u
      then (let (r, s') = save env s (record d {
        userspaces = ensure_space d u;
        api_keys = insert keys hash (active_key hash p);
      }) in
          ((p, r), s'))
      else ((no_one, err not_found), s)

module _ {Doc : Type 0} where
  unfoldable pub resolve_api_key_hash : Store Doc → Bytes → Option Principal
  resolve_api_key_hash s hash = elim (lookup s.contents.api_keys hash) [
    | none ↦ none
    | some rec ↦ with_method (codes "apikey") rec.active rec.principal
  ]

  unfoldable pub resolve_jwt_subject : Store Doc → Bytes → Option Principal
  resolve_jwt_subject s subject = elim (lookup s.contents.jwt_subjects subject) [
    | none ↦ none
    | some rec ↦ with_method (codes "jwt") rec.active rec.principal
  ]
