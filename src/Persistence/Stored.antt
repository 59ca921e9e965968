-- ===== src/Persistence/Stored.antt =====
-- What the two operations of persistence leave of the server's state.
use client_server_db.Prelude.{
  Text, List, [], ◌∷◌, ◌++◌, ◌≡◌, refl, sym, ap, ◌∙◌, Bool, true, false, Option, some, codes,
  if◌then◌else◌, ◌&&◌, append-nil,
}
use client_server_db.Prelude.Exec.{Outcome, ok, fault}
use client_server_db.Context.{index}
use client_server_db.Context.Lookup.{index-index}
use client_server_db.Floats.{Floats}
use client_server_db.Machine.{MachineInfo}
use client_server_db.World.{World, critical, write_log, config_at}
use client_server_db.Wire.{Bytes, Runtime}
use client_server_db.Messages.MachineInfo as InfoMessage
use client_server_db.Persistence.{
  Database, orm_object, get_orm_object, transact, write_client_info_db, not_persisted,
}

module _ {floats : Floats} (rt : Runtime floats) where
  pub get_orm_object_lem :
      (key : Text) (content : Bytes) (w : World floats) (message : InfoMessage.MachineInfo rt)
      → InfoMessage.parse_from_string rt content (InfoMessage.new_machine_info rt) ≡ some message
      → get_orm_object rt key content w ≡ (ok (some (orm_object rt key message)), w)
  unfolding get_orm_object
  get_orm_object_lem key content w message e = rw (e, get_orm_object) refl

  -- The world after the parser has failed.
  abbrev pub refused_by : Text → World floats → World floats
  refused_by key w = record w {
    log =
        w.log
        ++ (critical (codes "Failed to deerialize and parse string from client : {}") (key ∷ [])
            ∷ []);
  }

  pub get_orm_object_unparsable :
      (key : Text) (content : Bytes) (w : World floats)
      → InfoMessage.parse_from_string rt content (InfoMessage.new_machine_info rt) ≡ Option.none
      → get_orm_object rt key content w ≡ (ok Option.none, refused_by key w)
  unfolding get_orm_object write_log
  get_orm_object_unparsable key content w e = rw (e, get_orm_object) refl

module _ {floats : Floats} (db : Database floats) where
  -- Whether the database takes an object: it begins with what the configuration gives for it.
  abbrev pub begins_at : World floats → Bool
  begins_at w =
      db.begins (index (codes "db_username") w.config).0 (index (codes "db_passwd") w.config).0
        (index (codes "db_name") w.config).0

  abbrev pub takes_at : World floats → MachineInfo floats → Bool
  takes_at w m = begins_at w && (db.persists m && db.commits m)

  -- What write_client_info_db leaves of the state.
  pub record Stored (new : List (MachineInfo floats)) (w : World floats)
      (r : Outcome (Unit {0}) × World floats) : Type 0 where
    pub ended : r.0 ≡ ok tt
    pub rows : r.1.rows ≡ w.rows ++ new
    pub mails : r.1.mails ≡ w.mails
    pub config : (k : Text) → (index k r.1.config).0 ≡ (index k w.config).0
    pub clients : r.1.clients ≡ w.clients
    pub client_map : r.1.client_map ≡ w.client_map

  reads_same :
      (a b c : Text) (w : World floats) (k : Text)
      → (index k (index a (index b (index c w.config).1).1).1).0 ≡ (index k w.config).0
  reads_same a b c w k = simp index-index

  pub transact-Stored :
      (b : Bool) (m : MachineInfo floats) (w v : World floats)
      → (db.persists m && db.commits m) ≡ b
      → v.rows ≡ w.rows
      → v.mails ≡ w.mails
      → v.clients ≡ w.clients
      → v.client_map ≡ w.client_map
      → ((k : Text) → (index k v.config).0 ≡ (index k w.config).0)
      → Stored (if b then m ∷ [] else []) w (transact db (some m) v)
  unfolding transact write_log
  transact-Stored true m w v e rows mails clients client_map config = rw e (record {
    ended = refl;
    rows = ap (λ rs. rs ++ (m ∷ [])) rows;
    mails = mails;
    config = config;
    clients = clients;
    client_map = client_map;
  })
  transact-Stored false m w v e rows mails clients client_map config = rw e (record {
    ended = refl;
    rows = rows ∙ sym (append-nil w.rows);
    mails = mails;
    config = config;
    clients = clients;
    client_map = client_map;
  })

  -- The world after the three lookups of write_client_info_db.
  abbrev pub looked_up : World floats → World floats
  looked_up w = record w {
    config =
        (index (codes "db_name")
          (index (codes "db_passwd") (index (codes "db_username") w.config).1).1).1;
  }

  begins_same :
      (w : World floats)
      → db.begins
          (index (codes "db_username") w.config).0
          (index (codes "db_passwd") (index (codes "db_username") w.config).1).0
          (index
            (codes "db_name")
            (index (codes "db_passwd") (index (codes "db_username") w.config).1).1).0
        ≡ begins_at w
  begins_same w = simp index-index

  pub write_client_info_db_lem :
      (o : Option (MachineInfo floats)) (w : World floats)
      → write_client_info_db db o w
        ≡ (if begins_at w then transact db o else write_log (not_persisted db)) (looked_up w)
  unfolding write_client_info_db config_at
  write_client_info_db_lem o w =
      ap (λ b. (if b then transact db o else write_log (not_persisted db)) (looked_up w))
        (begins_same w)

  pub write_client_info_db-Stored :
      (b : Bool) (m : MachineInfo floats) (w : World floats)
      → begins_at w ≡ b
      → Stored (if takes_at w m then m ∷ [] else []) w (write_client_info_db db (some m) w)
  unfolding write_log
  write_client_info_db-Stored true m w e =
      rw (write_client_info_db_lem, e)
        (transact-Stored (db.persists m && db.commits m) m w (looked_up w) refl refl refl refl refl
          (reads_same _ _ _ w))
  write_client_info_db-Stored false m w e =
      rw (write_client_info_db_lem, e)
        (record {
          ended = refl;
          rows = sym (append-nil w.rows);
          mails = refl;
          config = reads_same _ _ _ w;
          clients = refl;
          client_map = refl;
        })

  pub write_null :
      (w : World floats)
      → begins_at w ≡ true
      → write_client_info_db db Option.none w ≡ (fault, looked_up w)
  unfolding transact
  write_null w e = write_client_info_db_lem Option.none w ∙ rw e refl
