-- ===== src/Odb/Table/Sequences/Histories.antt =====
-- Any sequence of operations against the table.
use client_server_db.Prelude.{
  ℕ, List, [], ◌∷◌, All, ◌+◌, ◌^◌, ◌<◌, ◌≡◌, inl, inr, Bool, true, false, Option, some, refl, sym,
  ap, ◌∙◌, Bool-cases, ◌==◌, arith, if◌then◌else◌, length,
}
use mathlib.Core.Path.{fun_ext}
use client_server_db.Machine.{MachineInfo}
use client_server_db.Prelude.Exec.{Outcome, ok, throws, fault, database_exception}
use client_server_db.Floats.{Floats}
use client_server_db.Odb.Traits.{Traits}
use client_server_db.Odb.Traits.Laws.{Laws}
use client_server_db.Odb.Image.{Object}
use client_server_db.Odb.Image.RoundTrip.{IsStorable}
use client_server_db.Odb.Statements.{Driver}
use client_server_db.Odb.Object.{Session, persist, update, erase, find}
use client_server_db.Odb.Table.{Table, put, remove, replace, Server}
use client_server_db.Odb.Table.Changing.{Persisted, if_row, persist_lem, update_lem, erase_lem}
use client_server_db.Odb.Table.Finding.{find_lem}
use client_server_db.Odb.Table.Keeping.{persist-IsUsable, update-IsUsable, erase-IsUsable}
use client_server_db.Odb.Table.Sequences.{IsIdle, usable-IsIdle, fewer-IsIdle, one_left}

-- A call of one of the operations.
pub data Operation (floats : Floats) : Type 0 where
  persisting updating : Object floats → Operation floats
  erasing finding : ℕ → Operation floats

equal_ids : (k id : ℕ) → (k == id) ≡ true → k ≡ id
equal_ids k id same = ground arith

module _ {floats : Floats} where
  -- The arguments are within the types of the source.
  abbrev pub IsAllowed : Operation floats → Type 0
  IsAllowed (persisting obj) = IsStorable obj.info
  IsAllowed (updating obj) = (obj.id_ < 2 ^ 64) × IsStorable obj.info
  IsAllowed (erasing id) = id < 2 ^ 64
  IsAllowed (finding id) = id < 2 ^ 64

  -- What an operation that returns makes of the table; one that throws leaves it as it was. A row is
  -- made under an id that had none; only a row that is there is written over or removed.
  abbrev pub Changes : Operation floats → Bool → Table floats → Table floats → Type 0
  Changes op false before after = after ≡ before
  Changes (persisting obj) true before after =
      (id : ℕ) × (before id ≡ Option.none) × (after ≡ put id obj.info before)
  Changes (updating obj) true before after =
      (old : MachineInfo floats) × (before obj.id_ ≡ some old)
      × (after ≡ replace obj.id_ obj.info before)
  Changes (erasing id) true before after =
      (old : MachineInfo floats) × (before id ≡ some old) × (after ≡ remove id before)
  Changes (finding id) true before after = after ≡ before

  -- The tables that a sequence of operations can lead to, for which of them return.
  pub data Evolves
      : List (Operation floats) → List Bool → Table floats → Table floats → Type 0 where
    finished : {t : Table floats} → Evolves [] [] t t
    step :
        {op : Operation floats} {ops : List (Operation floats)} {done : Bool} {later : List Bool}
        {t u v : Table floats}
        → Changes op done t u
        → Evolves ops later u v
        → Evolves (op ∷ ops) (done ∷ later) t v

  replace-absent :
      (id : ℕ) (info : MachineInfo floats) (t : Table floats)
      → t id ≡ Option.none
      → replace id info t ≡ t
  unfolding replace
  replace-absent id info t h = fun_ext (λ k. elim (Bool-cases (k == id)) [
    | inl same ↦ rw (same, ap t (equal_ids k id same) ∙ h) refl
    | inr other ↦ rw other refl
  ])

  remove-absent : (id : ℕ) (t : Table floats) → t id ≡ Option.none → remove id t ≡ t
  unfolding remove
  remove-absent id t h = fun_ext (λ k. elim (Bool-cases (k == id)) [
    | inl same ↦ rw same (sym (ap t (equal_ids k id same) ∙ h))
    | inr other ↦ rw other refl
  ])

-- Whether an operation returned.
abbrev pub returned : {A : Type 0} → Outcome A → Bool
returned (ok a) = true
returned other = false

module _ {floats : Floats} {traits : Traits floats} (driver : Driver traits) where
  -- Whether an operation returns, and the session behind it, however it ended.
  unfoldable pub perform : Operation floats → Session driver → Bool × Session driver
  perform (persisting obj) s = (returned (persist driver obj s).0, (persist driver obj s).1)
  perform (updating obj) s = (returned (update driver obj s).0, (update driver obj s).1)
  perform (erasing id) s = (returned (erase driver id s).0, (erase driver id s).1)
  perform (finding id) s = (returned (find driver id s).0, (find driver id s).1)

  unfoldable pub perform_all : List (Operation floats) → Session driver → List Bool × Session driver
  perform_all [] s = ([], s)
  perform_all (op ∷ ops) s =
      let p = perform op s in let rest = perform_all ops p.1 in (p.0 ∷ rest.0, rest.1)

module _ {floats : Floats} {traits : Traits floats} {driver : Driver traits}
    (server : Server driver) where
  open server use {rows, answers}

  Persisted-Changes :
      (obj : Object floats) (t u : Table floats) (r : Outcome (Object floats))
      → Persisted obj t u r
      → Changes (persisting obj) (returned r) t u
  Persisted-Changes obj t u (ok o) h = (o.id_, h.1, h.2)
  Persisted-Changes obj t u (throws e) h = h
  Persisted-Changes obj t u fault h = elim h [ ]

  updating-Changes :
      (obj : Object floats) (b : Bool) (row : Option (MachineInfo floats)) (t u : Table floats)
      (r : Outcome (Unit {0}))
      → t obj.id_ ≡ row
      → r ≡ (if b then if_row row else throws database_exception)
      → u ≡ (if b then replace obj.id_ obj.info t else t)
      → Changes (updating obj) (returned r) t u
  updating-Changes obj false row t u r at e h = rw e h
  updating-Changes obj true Option.none t u r at e h =
      rw e (h ∙ replace-absent obj.id_ obj.info t at)
  updating-Changes obj true (some old) t u r at e h = rw e (old, at, h)

  erasing-Changes :
      (id : ℕ) (b : Bool) (row : Option (MachineInfo floats)) (t u : Table floats)
      (r : Outcome (Unit {0}))
      → t id ≡ row
      → r ≡ (if b then if_row row else throws database_exception)
      → u ≡ (if b then remove id t else t)
      → Changes (erasing id) (returned r) t u
  erasing-Changes id false row t u r at e h = rw e h
  erasing-Changes id true Option.none t u r at e h = rw e (h ∙ remove-absent id t at)
  erasing-Changes id true (some old) t u r at e h = rw e (old, at, h)

  finding-Changes : (id : ℕ) (b : Bool) (t u : Table floats) → u ≡ t → Changes (finding id) b t u
  finding-Changes id true t u h = h
  finding-Changes id false t u h = h

  perform-Changes :
      Laws traits
      → (op : Operation floats) (s : Session driver) → IsAllowed op
      → IsIdle driver 1 s
      → Changes op (perform driver op s).0 (rows s.db) (rows (perform driver op s).1.db)
  unfolding perform
  perform-Changes laws (persisting obj) s allowed h =
      Persisted-Changes obj _ _ _
        (persist_lem server laws obj s h.in_transaction h.synced h.version allowed)
  perform-Changes laws (updating obj) s allowed h =
      let l =
        update_lem server laws obj s h.in_transaction h.synced h.version allowed.0 allowed.1 in
      updating-Changes obj (answers s.db) (rows s.db obj.id_) _ _ _ refl l.0 l.1
  perform-Changes laws (erasing id) s allowed h =
      let l = erase_lem server laws id s h.in_transaction h.synced allowed in
      erasing-Changes id (answers s.db) (rows s.db id) _ _ _ refl l.0 l.1
  perform-Changes laws (finding id) s allowed h =
      finding-Changes id _ _ _
        (find_lem server laws id s h.in_transaction h.unlocked h.synced h.version allowed).1

  perform-IsIdle :
      Laws traits
      → (n : ℕ) (op : Operation floats) (s : Session driver) → IsAllowed op
      → IsIdle driver (1 + n) s
      → IsIdle driver n (perform driver op s).1
  unfolding perform
  perform-IsIdle laws n (persisting obj) s allowed h =
      usable-IsIdle driver
        (persist-IsUsable server laws obj s h.in_transaction h.synced (one_left driver n h)) h
  perform-IsIdle laws n (updating obj) s allowed h =
      usable-IsIdle driver
        (update-IsUsable server laws obj s h.in_transaction h.synced (one_left driver n h)) h
  perform-IsIdle laws n (erasing id) s allowed h =
      usable-IsIdle driver (erase-IsUsable server 1 id s h.in_transaction h.synced) h
  perform-IsIdle laws n (finding id) s allowed h =
      usable-IsIdle driver
        (find_lem server laws id s h.in_transaction h.unlocked h.synced (one_left driver n h)
          allowed).2
        h

  -- From a session between two operations, with room for the buffers to move once for each
  -- operation: any sequence of operations with arguments within their types ends in such a session
  -- again, and the table has evolved by the changes of the operations, in their order: one that
  -- returned has made its change once, where a search makes none, an UPDATE and a DELETE had their
  -- row, and an INSERT had none; and one that threw has changed nothing.
  pub perform_all_lem :
      Laws traits
      → (ops : List (Operation floats)) (s : Session driver) → All IsAllowed ops
      → IsIdle driver (length ops) s
      → IsIdle driver 0 (perform_all driver ops s).1
        × Evolves ops
            (perform_all driver ops s).0
            (rows s.db)
            (rows (perform_all driver ops s).1.db)
  unfolding perform_all
  perform_all_lem laws [] s allowed h = (h, finished)
  perform_all_lem laws (op ∷ ops) s allowed h =
      let next =
        perform-IsIdle laws (length ops) op s allowed.0
          (fewer-IsIdle driver (1 + length ops) (omega arith) h) in
      let rest = perform_all_lem laws ops (perform driver op s).1 allowed.1 next in
      (
        rest.0,
        step (perform-Changes laws op s allowed.0 (fewer-IsIdle driver 1 (omega arith) h)) rest.1,
      )
