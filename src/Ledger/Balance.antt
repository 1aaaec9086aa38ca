-- ===== src/Ledger/Balance.antt =====
-- Every move, and so every transaction that is a row of moves, keeps the ledger balanced.
use webhook_delivery_platfor.Base.{ℕ}
use webhook_delivery_platfor.Schema.{Database}
use webhook_delivery_platfor.Ledger.{IsBalanced}
use webhook_delivery_platfor.Ledger.Moves.{
  Move, edit, relabel, note, start, settle, sweep, create, Moves, here, next,
}
use webhook_delivery_platfor.Ledger.Preserve.{
  edit-IsBalanced, relabel-IsBalanced, note-IsBalanced, create-IsBalanced,
}
use webhook_delivery_platfor.Ledger.Sweep.{sweep-IsBalanced}
use webhook_delivery_platfor.Ledger.InFlight.{start-IsBalanced, settle-IsBalanced}

pub Move-IsBalanced :
    (limit : ℕ) (db db' : Database) → IsBalanced limit db → Move limit db db' → IsBalanced limit db'
Move-IsBalanced limit db db' v (edit p q s) = edit-IsBalanced limit db db' v p q s
Move-IsBalanced limit db db' v (relabel d d' r x y p q s) =
    relabel-IsBalanced limit db db' v d d' r x y p q s
Move-IsBalanced limit db db' v (note a f o p q s) = note-IsBalanced limit db db' v a f o p q s
Move-IsBalanced limit db db' v (start d d' e e' a r x y he hk free up fresh own st p q s) =
    start-IsBalanced limit db db' v d d' e e' a r x y he hk free up fresh own st p q s
Move-IsBalanced limit db db' v
      (settle d d' e e' a a' r x y he hk down ha same keep own st over p q s) =
    settle-IsBalanced limit db db' v d d' e e' a a' r x y he hk down ha same keep own st over p q s
Move-IsBalanced limit db db' v (create d f o b p q s) =
    create-IsBalanced limit db db' v d f o b p q s
Move-IsBalanced limit db db' v (sweep p f idle same place idle' ended kept x y z) =
    sweep-IsBalanced limit db db' v p f idle same idle' ended kept x y z

pub Moves-IsBalanced :
    (limit : ℕ) (db : Database)
    → IsBalanced limit db
    → {db' : Database} → Moves limit db db'
    → IsBalanced limit db'
Moves-IsBalanced limit db v here = v
Moves-IsBalanced limit db v (next {db' = x} {db'' = y} m n) =
    Move-IsBalanced limit x y (Moves-IsBalanced limit db v m) n
