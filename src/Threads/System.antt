-- ===== src/Threads/System.antt =====
-- Threads over one store and one global lock, interleaved in any order: the requests to the
-- coordinator, the rounds of the expiry, and the handlers of internal/httpapi that take the lock.
use httpkvdb.Base.{ℕ, ◌≡◌, Bool, true, false, none, some, List, []}
use mathlib.Core.Logic.{ite}
use native.Mathlib.Decide.{ℕ_discrete}
use httpkvdb.Base.Int.{ℤ}
use httpkvdb.Base.Bytes.{Bytes}
use httpkvdb.Golang.Crypto.{Std}
use httpkvdb.Model.{Error, Time, KvRecord, Principal, Transaction, TxOperation, ImportMode, ok, err}
use httpkvdb.Storage.Disk.{Json, Io, Env}
use httpkvdb.Storage.Store.{Store, get_tx, save_tx}
use httpkvdb.Storage.Store
use httpkvdb.Storage.Accounts.{create_userspace, delete_userspace, replace_userspace_api_key_hash}
use httpkvdb.Storage.Atomic.{AtomicTx, begin_atomic, import_userspace}
use httpkvdb.Storage.Atomic
use httpkvdb.Tx.Execute.{conclude, run_ops, all_seqs}
use httpkvdb.Tx.Coordinator.{load_owned, opened_tx}
use httpkvdb.Tx.Machine.{world}
use httpkvdb.Threads.Lock.{Serializable, lock, unlock}
use httpkvdb.Threads.Plan.{Plan, stop, save, run, add_plan, commit_plan, abort_plan, look_plan}

-- A method of the coordinator that loads a transaction of the caller.
pub data Method : Type 0 where
  add : TxOperation → Method
  commit : ℤ → Bytes → Method
  abort get_result : Method

unfoldable pub plan_of : {Doc : Type 0} → Env Doc → Transaction → Bytes → Method → Plan
plan_of env t tx_id (add op) = add_plan env t tx_id op
plan_of env t tx_id (commit total_ops digest) = commit_plan env t total_ops digest
plan_of env t tx_id abort = abort_plan env t
plan_of env t tx_id get_result = look_plan env t

-- What a handler does with the store while it holds the lock, but for an import.
pub data Job : Type 0 where
  put : (u key value content_type : Bytes) → Job
  delete : (u key : Bytes) → Job
  create : (u user_id hash : Bytes) → Job
  drop : (u : Bytes) → Job
  rekey : (u hash : Bytes) → Job
  read : Job

unfoldable pub run_job : {Doc : Type 0} → Env Doc → Job → Store Doc → Store Doc
run_job env (put u key value content_type) s = (Store.put env s u key value content_type).1
run_job env (delete u key) s = (Store.delete env s u key).1
run_job env (create u user_id hash) s = (create_userspace env s u user_id hash).1
run_job env (drop u) s = (delete_userspace env s u).1
run_job env (rekey u hash) s = (replace_userspace_api_key_hash env s u hash).1
run_job env read s = s

-- Where a thread stands, with the local variables that are live there.
pub data Pc : Type 0 where
  idle : Pc  -- between two requests
  planned : Plan → Pc  -- a transaction is loaded, and the guards are passed
  running : Transaction → Pc  -- in `execute`, behind Lock
  begun : Transaction → AtomicTx → Pc  -- behind BeginAtomic
  working : Job → Pc  -- in a handler, behind Lock
  import_ready : (u : Bytes) → List KvRecord → ImportMode → Pc  -- in handleImport, behind Lock
  imported : AtomicTx → Pc  -- in Store.ImportUserspace, before Commit
  leaving : Pc  -- before the deferred Unlock

-- Between Lock and Unlock
abbrev pub critical : Pc → Bool
critical idle = false
critical (planned plan) = false
critical _ = true

pub record Shared (Doc : Type 0) : Type 0 where
  pub store : Store Doc
  pub mutex : Serializable

module _ {Doc : Type 0} (std : Std) (json : Json Doc) (i : ℕ) where
  -- One step of thread `i`, at any time and whatever the files do.
  pub data Move (m : Shared Doc) : Pc → Shared Doc → Pc → Type 0 where
    load :
        (io : Io Doc) (now : Time) (p : Principal) (tx_id : Bytes) (t : Transaction)
        (method : Method)
        → load_owned m.store p tx_id ≡ ok t
        → Move m idle m (planned (plan_of (world std json io now) t tx_id method))
    scan :
        (io : Io Doc) (now : Time) (tx_id : Bytes) (t : Transaction)
        → get_tx m.store tx_id ≡ ok t
        → Move m idle m (planned (look_plan (world std json io now) t))
    open_new :
        (io : Io Doc) (now : Time) (p : Principal) (total_ops timeout : ℤ) (tx_id : Bytes)
        (e : Error)
        → get_tx m.store tx_id ≡ err e
        → Move m idle m
            (planned (save (opened_tx (world std json io now) p total_ops timeout tx_id)))
    nothing : Move m (planned stop) m idle
    write :
        (io : Io Doc) (now : Time) {t : Transaction}
        → Move m
            (planned (save t))
            (record m { store = (save_tx (world std json io now) m.store t).1 })
            idle
    enter :
        {t : Transaction} {l : Serializable}
        → lock i m.mutex ≡ some l
        → Move m (planned (run t)) (record m { mutex = l }) (running t)
    begin :
        (io : Io Doc) (now : Time) {t : Transaction} {atx : AtomicTx}
        → begin_atomic (world std json io now) m.store ≡ ok atx
        → Move m (running t) m (begun t atx)
    no_begin :
        (io : Io Doc) (now : Time) {t : Transaction} {e : Error}
        → begin_atomic (world std json io now) m.store ≡ err e
        → Move m (running t) m leaving
    end :
        (io : Io Doc) (now : Time) {t : Transaction} {atx : AtomicTx}
        → Move m
            (begun t atx)
            (record m {
              store =
                  (conclude
                    (world std json io now)
                    t
                    m.store
                    (run_ops (world std json io now) t (all_seqs t) [] atx)).1;
            })
            leaving
    take :
        (job : Job) {l : Serializable}
        → lock i m.mutex ≡ some l
        → Move m idle (record m { mutex = l }) (working job)
    work :
        (io : Io Doc) (now : Time) {job : Job}
        → Move m
            (working job)
            (record m { store = run_job (world std json io now) job m.store })
            leaving
    take_import :
        (u : Bytes) (records : List KvRecord) (mode : ImportMode) {l : Serializable}
        → lock i m.mutex ≡ some l
        → Move m idle (record m { mutex = l }) (import_ready u records mode)
    import_begin :
        (io : Io Doc) (now : Time) {u : Bytes} {records : List KvRecord} {mode : ImportMode}
        {atx : AtomicTx}
        → begin_atomic (world std json io now) m.store ≡ ok atx
        → Move m
            (import_ready u records mode)
            m
            (imported (import_userspace (world std json io now) atx u records mode).1)
    import_no_begin :
        (io : Io Doc) (now : Time) {u : Bytes} {records : List KvRecord} {mode : ImportMode}
        {e : Error}
        → begin_atomic (world std json io now) m.store ≡ err e
        → Move m (import_ready u records mode) m leaving
    import_end :
        (io : Io Doc) (now : Time) {atx : AtomicTx}
        → Move m
            (imported atx)
            (record m { store = (Atomic.commit (world std json io now) atx m.store).2 })
            leaving
    leave : Move m leaving (record m { mutex = unlock m.mutex }) idle

-- An index that names no thread stays idle.
pub record System (Doc : Type 0) : Type 0 where
  pub shared : Shared Doc
  pub pc : ℕ → Pc

abbrev pub update {ℓ} : {A : Type ℓ} → (ℕ → A) → ℕ → A → ℕ → A
update f i a j = ite (ℕ_discrete i j) a (f j)

abbrev pub init : {Doc : Type 0} → Store Doc → System Doc
init s = record { shared = record { store = s; mutex = record { holder = none } }; pc = λ _. idle }

module _ {Doc : Type 0} (std : Std) (json : Json Doc) where
  pub data Reach (s : Store Doc) : System Doc → Type 0 where
    start : Reach s (init s)
    later :
        {x : System Doc}
        → Reach s x
        → (i : ℕ) {m : Shared Doc} {p : Pc} → Move std json i x.shared (x.pc i) m p
        → Reach s (record { shared = m; pc = update x.pc i p })
