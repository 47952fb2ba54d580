-- ===== src/Tx/Machine.antt =====
-- The coordinator as a machine: its requests, one after the other.
use httpkvdb.Base.{◌≡◌, some}
use httpkvdb.Base.Int.{ℤ}
use httpkvdb.Base.Bytes.{Bytes, bytes_key}
use httpkvdb.Base.Dict.{lookup}
use httpkvdb.Golang.Crypto.{Std}
use httpkvdb.Model.{Time, Principal, Transaction, TxOperation, ok}
use httpkvdb.Storage.Disk.{Json, Io, Env}
use httpkvdb.Storage.Store.{Store, get_tx}
use httpkvdb.Tx.Coordinator.{
  Coordinator, load_owned, owns, is_committed, expire_if_needed, create_tx, add_op, abort,
  get_result,
}
use httpkvdb.Tx.Coordinator

-- Every transaction is stored under its identifier.
abbrev pub IsNamed : {Doc : Type 0} → Store Doc → Type 0
IsNamed s = (k : Bytes) (t : Transaction) → lookup s.contents.txs k ≡ some t → t.tx_id ≡ k

module _ {Doc : Type 0} (std : Std) (json : Json Doc) where
  abbrev pub world : Io Doc → Time → Env Doc
  world io now = record { std = std; json = json; io = io; now = now }

  -- A request of anyone, at any time, whatever the files do; or a round of the expiry on a
  -- transaction as it is stored.
  pub data Step (s : Store Doc) : Store Doc → Type 0 where
    creates :
        (io : Io Doc) (now : Time) (c : Coordinator) (fresh : Bytes) (p : Principal)
        (total_ops timeout : ℤ) (requested : Bytes)
        → Step s (create_tx (world io now) c fresh s p total_ops timeout requested).1
    adds :
        (io : Io Doc) (now : Time) (p : Principal) (tx_id : Bytes) (op : TxOperation)
        → Step s (add_op (world io now) s p tx_id op).1
    commits :
        (io : Io Doc) (now : Time) (p : Principal) (tx_id : Bytes) (n : ℤ) (d : Bytes)
        → Step s (Coordinator.commit (world io now) s p tx_id n d).1
    aborts :
        (io : Io Doc) (now : Time) (p : Principal) (tx_id : Bytes)
        → Step s (abort (world io now) s p tx_id).1
    asks :
        (io : Io Doc) (now : Time) (p : Principal) (tx_id : Bytes)
        → Step s (get_result (world io now) s p tx_id).1
    expires :
        (io : Io Doc) (now : Time) (tx_id : Bytes) (t : Transaction)
        → get_tx s tx_id ≡ ok t
        → Step s (expire_if_needed (world io now) t s).2

  pub data Steps (s : Store Doc) : Store Doc → Type 0 where
    here : Steps s s
    next : {s' s'' : Store Doc} → Steps s s' → Step s' s'' → Steps s s''
