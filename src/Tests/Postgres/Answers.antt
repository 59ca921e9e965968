-- ===== src/Tests/Postgres/Answers.antt =====
-- The concrete server behaves as documented.
use mathlib.Core.Path.{subst}
use client_server_db.Prelude.{
  ℕ, Text, ◌^◌, ◌≡◌, refl, sym, Bool, true, false, Option, some, arith, length, ltb, if◌then◌else◌,
}
use client_server_db.Prelude.Exec.{Outcome, ok, throws, database_exception}
use client_server_db.Machine.{MachineInfo}
use client_server_db.Odb.Image.{Object, Image, of_image}
use client_server_db.Odb.Binding.{Flags, bind}
use client_server_db.Odb.Table.{
  Table, Server, Inserted, Answers, IsTextFetched, IsTextReady, IsReady, IsWritten, Selected,
}
use client_server_db.Tests.Runtime.{integers}
use client_server_db.Tests.Postgres.{
  Buffer, write, plain, Connection, insert_row, cut, write_fitting, fetch_from, refetch_from, local,
}

pub insert_row_lem :
    (row : Option (MachineInfo integers)) (b : Bool) (im : Image plain) (d : Connection)
    → d.table d.next ≡ row
    → ltb d.next (2 ^ 64) ≡ b
    → Inserted local
        (of_image plain im).info
        d.table
        (insert_row row b im d).1.table
        (insert_row row b im d).0
      × ((insert_row row b im d).1.begun ≡ d.begun)
insert_row_lem Option.none true im d free small = ((free, refl, ground arith), refl)
insert_row_lem Option.none false im d free small = (refl, refl)
insert_row_lem (some info) b im d free small = (refl, refl)

text_fetched :
    (s : Text) (b : Buffer)
    → IsTextFetched plain s
        (cut s b)
        (write_fitting s b).room
        (length s)
        (write_fitting s b).content
text_fetched s b = record {
  flag_lem = ground arith;
  size_lem = refl;
  value_lem = λ h. ground arith;
}

-- The buffer of a text is where it was.
place :
    (s : Text) (b : Buffer)
    → ((write_fitting s b).address ≡ b.address) × ((write_fitting s b).room ≡ b.room)
place s b = (ground arith, ground arith)

pub fetch_from_lem :
    (c : Option (Object integers)) (im : Image plain) (t : Flags plain)
    → Answers plain c (fetch_from c im t) × IsWritten plain im (fetch_from c im t).1
unfolding of_image bind
fetch_from_lem Option.none im t = (refl, record { version = refl; bound = refl })
fetch_from_lem (some o) im t = (
  (
    record {
      numbers_lem = refl;
      client_key = text_fetched o.info.client_key im.client_key_value;
      system_ip = text_fetched o.info.system_info.system_ip im.system_info_value.system_ip_value;
      system_name =
          text_fetched o.info.system_info.system_name im.system_info_value.system_name_value;
    },
    refl,
  ),
  record {
    version = refl;
    bound =
        rw
          (
            (place o.info.client_key im.client_key_value).0,
            (place o.info.client_key im.client_key_value).1,
            (place o.info.system_info.system_ip im.system_info_value.system_ip_value).0,
            (place o.info.system_info.system_ip im.system_info_value.system_ip_value).1,
            (place o.info.system_info.system_name im.system_info_value.system_name_value).0,
            (place o.info.system_info.system_name im.system_info_value.system_name_value).1,
          )
          refl;
  },
)

text_refetched :
    (s : Text) (flag : Bool) (b : Buffer)
    → IsTextReady plain s flag b.room b.content
    → (if flag then write b s else b).content ≡ s
text_refetched s true b h = refl
text_refetched s false b h = h.value_lem refl

-- A write leaves a buffer where it is.
place_if :
    (s : Text) (flag : Bool) (b : Buffer)
    → ((if flag then write b s else b).address ≡ b.address)
      × ((if flag then write b s else b).room ≡ b.room)
place_if s true b = (refl, refl)
place_if s false b = (refl, refl)

pub refetch_from_lem :
    (im : Image plain) (t : Flags plain) (o : Object integers)
    → IsReady plain im t o
    → (of_image plain (refetch_from (some o) im t) ≡ o)
      × IsWritten plain im (refetch_from (some o) im t)
unfolding of_image bind
refetch_from_lem im t o h =
    let key = text_refetched o.info.client_key (t 1) im.client_key_value h.client_key in
    let ip =
      text_refetched o.info.system_info.system_ip (t 10) im.system_info_value.system_ip_value
        h.system_ip in
    let name =
      text_refetched o.info.system_info.system_name (t 11) im.system_info_value.system_name_value
        h.system_name in
    let key_place = place_if o.info.client_key (t 1) im.client_key_value in
    let ip_place =
      place_if o.info.system_info.system_ip (t 10) im.system_info_value.system_ip_value in
    let name_place =
      place_if o.info.system_info.system_name (t 11) im.system_info_value.system_name_value in
    (
      λ i. record {
        id_ = (h.numbers_lem i).0;
        info = record {
          client_key = key i;
          memory = (h.numbers_lem i).1;
          cpu = (h.numbers_lem i).2;
          process = (h.numbers_lem i).3;
          system_info = record { system_ip = ip i; system_name = name i };
          time_stamp = (h.numbers_lem i).4;
        };
      },
      record {
        version = refl;
        bound =
            rw (key_place.0, key_place.1, ip_place.0, ip_place.1, name_place.0, name_place.1) refl;
      },
    )

-- A statement on a row, where the server answers and where not.
pub change_row_lem :
    (b : Bool) (n : ℕ) (u : Table integers) (d : Connection)
    → let r : Outcome ℕ × Connection =
        if b then (ok n, record d { table = u }) else (throws database_exception, d) in
      (r.0 ≡ (if b then ok n else throws database_exception))
      × (r.1.table ≡ (if b then u else d.table))
      × (r.1.begun ≡ d.begun)
change_row_lem true n u d = (refl, refl, refl)
change_row_lem false n u d = (refl, refl, refl)

pub select_row_lem :
    (b : Bool) (o : Option (Object integers)) (d : Connection)
    → let r : Outcome (Option (Object integers)) × Connection =
        if b then (ok o, d) else (throws database_exception, d) in
      Selected local (λ c. c) b o r.0 × (r.1.table ≡ d.table) × (r.1.begun ≡ d.begun)
select_row_lem true o d = (refl, refl, refl)
select_row_lem false o d = (refl, refl, refl)

abbrev pub local_server : Server local
local_server = record {
  rows = λ d. d.table;
  answers = λ d. d.up;
  row = λ c. c;
  insert_law = λ st types bs im ids d text same h h'.
      insert_row_lem (d.table d.next) (ltb d.next (2 ^ 64)) im d refl refl;
  update_law = λ st types bs im ids idi d text same h h'. change_row_lem d.up _ _ d;
  delete_law = λ st ids idi d text h. change_row_lem d.up _ _ d;
  select_law = λ st types ids idi d text same h. select_row_lem d.up _ d;
  fetch_law = λ c bs im t h. fetch_from_lem c im t;
  refetch_law = λ c bs im t o h row ready.
      subst
        (λ c. (of_image plain (refetch_from c im t) ≡ o) × IsWritten plain im (refetch_from c im t))
        (sym row) (refetch_from_lem im t o ready);
}
