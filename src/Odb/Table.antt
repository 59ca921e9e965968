-- ===== src/Odb/Table.antt =====
-- The table `machineinfo`, forgetting the order of its rows, and the documented behaviour of the
-- server and of the ODB runtime: what a statement with the text and the types of these columns does
-- when its parameters are bound to the members of the images.
pub mod Program
pub mod Loading
pub mod Searching
pub mod Finding
pub mod Changing
pub mod Keeping
pub mod Sequences
use client_server_db.Prelude.{
  [], ◌∷◌, ◌++◌, map, ℕ, Text, Bool, true, false, ◌≡◌, ◌≤◌, ◌<◌, ◌^◌, Option, some, length, ◌==◌,
  if◌then◌else◌, codes, List, leb, not,
}
use client_server_db.Prelude.Exec.{Outcome, ok, throws, fault, database_exception}
use client_server_db.Floats.{Floats}
use client_server_db.Machine.{MachineInfo, Memory, Cpu, Process}
use client_server_db.Odb.Traits.{Traits}
use client_server_db.Odb.Image.{Object, IdImage, Image, of_image, id_of_id_image}
use client_server_db.Odb.Binding.{statement_select, Bind, bind, Flags, id}
use client_server_db.Odb.Statements.{Driver, Fetched, success, no_data, truncated, Statement, Oid}
use client_server_db.Odb.Statements.Texts.{
  insert_text, update_text, delete_text, find_text, data_columns, oids, wired, wired_number,
}

-- The row of each id.
abbrev pub Table : Floats → Type 0
Table floats = ℕ → Option (MachineInfo floats)

module _ {floats : Floats} where
  unfoldable pub put : ℕ → MachineInfo floats → Table floats → Table floats
  put row_id info t k = if k == row_id then some info else t k

  unfoldable pub remove : ℕ → Table floats → Table floats
  remove row_id t k = if k == row_id then Option.none else t k

  -- A row is written over where there is one.
  abbrev overwrite : MachineInfo floats → Option (MachineInfo floats) → Option (MachineInfo floats)
  overwrite info Option.none = Option.none
  overwrite info (some old) = some info

  unfoldable pub replace : ℕ → MachineInfo floats → Table floats → Table floats
  replace row_id info t k = if k == row_id then overwrite info (t k) else t k

  -- The number of rows with an id that is unique.
  abbrev pub count : Option (MachineInfo floats) → ℕ
  count Option.none = 0
  count (some info) = 1

  -- The object of a row.
  abbrev pub object : ℕ → Option (MachineInfo floats) → Option (Object floats)
  object row_id Option.none = Option.none
  object row_id (some info) = some (record { id_ = row_id; info = info })

  -- What an object is, but for its texts.
  abbrev pub numbers : Object floats → ℕ × Memory × Cpu floats × Process × ℕ
  numbers o = (o.id_, o.info.memory, o.info.cpu, o.info.process, o.info.time_stamp)

module _ {floats : Floats} (traits : Traits floats) where
  -- A text column of an image, for the text of a row: its flag, whether the text fits the buffer,
  -- the size and what the image stands for.
  pub record IsTextFetched (s : Text) (flag : Bool) (capacity size : ℕ) (value : Text)
      : Type 0 where
    pub flag_lem : flag ≡ not (leb (length s) capacity)
    pub size_lem : size ≡ length s
    pub value_lem : flag ≡ false → value ≡ s

  -- A text column that a refetch can complete.
  pub record IsTextReady (s : Text) (flag : Bool) (capacity : ℕ) (value : Text) : Type 0 where
    pub fits : length s ≤ capacity
    pub value_lem : flag ≡ false → value ≡ s

  -- An image and flags after a fetch of an object's row.
  pub record IsFetched (im : Image traits) (t : Flags traits) (o : Object floats) : Type 0 where
    pub numbers_lem : numbers (of_image traits im) ≡ numbers o
    pub client_key :
        IsTextFetched o.info.client_key
          (t 1)
          (traits.capacity im.client_key_value)
          im.client_key_size
          (of_image traits im).info.client_key
    pub system_ip :
        IsTextFetched o.info.system_info.system_ip
          (t 10)
          (traits.capacity im.system_info_value.system_ip_value)
          im.system_info_value.system_ip_size
          (of_image traits im).info.system_info.system_ip
    pub system_name :
        IsTextFetched o.info.system_info.system_name
          (t 11)
          (traits.capacity im.system_info_value.system_name_value)
          im.system_info_value.system_name_size
          (of_image traits im).info.system_info.system_name

  pub record IsReady (im : Image traits) (t : Flags traits) (o : Object floats) : Type 0 where
    pub numbers_lem : numbers (of_image traits im) ≡ numbers o
    pub client_key :
        IsTextReady o.info.client_key
          (t 1)
          (traits.capacity im.client_key_value)
          (of_image traits im).info.client_key
    pub system_ip :
        IsTextReady o.info.system_info.system_ip
          (t 10)
          (traits.capacity im.system_info_value.system_ip_value)
          (of_image traits im).info.system_info.system_ip
    pub system_name :
        IsTextReady o.info.system_info.system_name
          (t 11)
          (traits.capacity im.system_info_value.system_name_value)
          (of_image traits im).info.system_info.system_name

  -- What a fetch answers for a row, or for none.
  abbrev pub Answers : Option (Object floats) → Fetched × Image traits × Flags traits → Type 0
  Answers Option.none (r, im, t) = r ≡ no_data
  Answers (some o) (r, im, t) =
      IsFetched im t o
      × (r ≡ (if (if t 1 then true else if t 10 then true else t 11) then truncated else success))

  -- An image that the runtime has written to: only what the pointers lead to has changed.
  pub record IsWritten (im im' : Image traits) : Type 0 where
    pub version : im'.version ≡ im.version
    pub bound : bind traits im' statement_select ≡ bind traits im statement_select

module _ {floats : Floats} {traits : Traits floats} (driver : Driver traits) where
  open driver use {Db, Cursor}

  -- What comes of an INSERT: a new row and its id, or no change.
  abbrev pub Inserted :
      MachineInfo floats
      → Table floats
      → Table floats
      → Outcome (Option (traits.Bigint × Bool))
      → Type 0
  Inserted info before after (ok (some (v, null))) =
      (before (traits.bigint_value v null) ≡ Option.none)
      × (after ≡ put (traits.bigint_value v null) info before)
      × (traits.bigint_value v null < 2 ^ 64)
  Inserted info before after (ok Option.none) = after ≡ before
  Inserted info before after (throws e) = after ≡ before
  Inserted info before after fault = ⊥

  -- What comes of a statement that searches for a row, where the server answers and where not.
  abbrev pub Selected :
      (Cursor → Option (Object floats)) → Bool → Option (Object floats) → Outcome Cursor → Type 0
  Selected row true o (ok c) = row c ≡ o
  Selected row true o (throws e) = ⊥
  Selected row true o fault = ⊥
  Selected row false o r = r ≡ throws database_exception

  pub record Server : Type 1 where
    pub rows : Db → Table floats
    -- Whether the next statement is executed.
    pub answers : Db → Bool
    -- The row that a cursor is at.
    pub row : Cursor → Option (Object floats)
    pub insert_law :
        (st : Statement) (types : List Oid) (bs : List (Bind traits)) (im : Image traits)
        (ids : List (Bind traits)) (d : Db)
        → st.text ≡ insert_text data_columns
        → types ≡ oids data_columns
        → bs ≡ map (wired traits im) data_columns
        → ids ≡ wired_number traits id ∷ []
        → let r = driver.insert st types bs im ids d in
          Inserted (of_image traits im).info (rows d) (rows r.1) r.0
          × (driver.in_transaction r.1 ≡ driver.in_transaction d)
    pub update_law :
        (st : Statement) (types : List Oid) (bs : List (Bind traits)) (im : Image traits)
        (ids : List (Bind traits)) (idi : IdImage traits) (d : Db)
        → st.text ≡ update_text data_columns (id ∷ [])
        → types ≡ oids (data_columns ++ (id ∷ []))
        → bs ≡ map (wired traits im) data_columns
        → ids ≡ wired_number traits id ∷ []
        → let r = driver.update st types bs im ids idi d in
          let row_id = id_of_id_image traits idi in
          (r.0 ≡ (if answers d then ok (count (rows d row_id)) else throws database_exception))
          × (rows r.1
              ≡ (if answers d then replace row_id (of_image traits im).info (rows d) else rows d))
          × (driver.in_transaction r.1 ≡ driver.in_transaction d)
    pub delete_law :
        (st : Statement) (ids : List (Bind traits)) (idi : IdImage traits) (d : Db)
        → st.text ≡ delete_text (id ∷ [])
        → ids ≡ wired_number traits id ∷ []
        → let r = driver.delete st ids idi d in
          let row_id = id_of_id_image traits idi in
          (r.0 ≡ (if answers d then ok (count (rows d row_id)) else throws database_exception))
          × (rows r.1 ≡ (if answers d then remove row_id (rows d) else rows d))
          × (driver.in_transaction r.1 ≡ driver.in_transaction d)
    pub select_law :
        (st : Statement) (types : List Oid) (ids : List (Bind traits)) (idi : IdImage traits)
        (d : Db)
        → st.text ≡ find_text (id ∷ data_columns) (id ∷ [])
        → types ≡ oids (id ∷ [])
        → ids ≡ wired_number traits id ∷ []
        → let r = driver.select st types ids idi d in
          let row_id = id_of_id_image traits idi in
          Selected row (answers d) (object row_id (rows d row_id)) r.0
          × (rows r.1 ≡ rows d)
          × (driver.in_transaction r.1 ≡ driver.in_transaction d)
    pub fetch_law :
        (c : Cursor) (bs : List (Bind traits)) (im : Image traits) (t : Flags traits)
        → bs ≡ map (wired traits im) (id ∷ data_columns)
        → Answers traits (row c) (driver.fetch c bs im t)
          × IsWritten traits im (driver.fetch c bs im t).1
    pub refetch_law :
        (c : Cursor) (bs : List (Bind traits)) (im : Image traits) (t : Flags traits)
        (o : Object floats)
        → bs ≡ map (wired traits im) (id ∷ data_columns)
        → row c ≡ some o
        → IsReady traits im t o
        → (of_image traits (driver.refetch c bs im t) ≡ o)
          × IsWritten traits im (driver.refetch c bs im t)
