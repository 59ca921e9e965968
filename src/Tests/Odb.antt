-- ===== src/Tests/Odb.antt =====
-- The properties of the operations on rows, on the concrete server.
use client_server_db.Prelude.{
  some, List, [], ◌∷◌, ◌++◌, ◌≡◌, refl, true, false, Option, codes, arith, map,
}
use client_server_db.Prelude.Exec.{ok}
use client_server_db.Odb.Image.{to_image, id_of_id_image, id_to_image}
use client_server_db.Odb.Binding.{
  statement_insert, statement_update, statement_select, bind, id_bind, id,
}
use client_server_db.Odb.Statements.{
  persist_statement, find_statement, update_statement, query_statement, persist_statement_types,
  find_statement_types, update_statement_types, erase_statement, erase_query_statement,
}
use client_server_db.Odb.Statements.Synced.{IsSynced}
use client_server_db.Odb.Statements.Texts.{
  insert_text, update_text, select_text, find_text, delete_text, data_columns, oids, wired,
  wired_number, statements_lem,
}
use client_server_db.Odb.Prepare.{
  prepare_insert, prepare_update, write_image, write_id, bind_insert, bind_id, bind_update,
  bind_update_id,
}
use client_server_db.Odb.Object.{
  Session, loaded, found, persist, update, erase, find, current_transaction, inserted,
}
use client_server_db.Odb.Prepare.Prepared.{prepare_insert-IsSynced}
use client_server_db.Odb.Table.{put, remove, replace, object}
use client_server_db.Odb.Table.Changing.{Persisted, if_row, persist_lem, update_lem, erase_lem}
use client_server_db.Odb.Table.Keeping.{IsUsable}
use client_server_db.Odb.Table.Finding.{find_lem}
use client_server_db.Odb.Table.Sequences.{IsIdle, find-persist, find-update}
use client_server_db.Odb.Table.Sequences.Histories.{
  Operation, persisting, updating, erasing, finding, perform_all, Evolves, perform_all_lem,
}
use client_server_db.Tests.Runtime.{integers}
use client_server_db.Tests.Postgres.{plain, plain_laws, local}
use client_server_db.Tests.Postgres.Answers.{local_server}
use client_server_db.Tests.Postgres.Data.{
  info, report, info-IsStorable, blank, new_statements, new_statements-IsSynced, one_row, session,
  session_of_row, row_report, session-IsIdle, session_of_row-IsIdle,
}
use client_server_db.Wire.{Bytes}
use client_server_db.Messages.MachineInfo.{serialize_to_string}
use client_server_db.Persistence.{orm_object, get_orm_object}
use client_server_db.Persistence.Figures.{HasFigures}
use client_server_db.Persistence.ReadBack.{new_object, find-get_orm_object}
use client_server_db.Tests.Runtime.{words, words_laws}
use client_server_db.Tests.Data.{report-IsSendable, report_short, serving, watched}
use client_server_db.Tests.Data as Sent

-- The server gives the id 7.
persisted : (persist local report session).0 ≡ ok row_report
unfolding persist current_transaction prepare_insert inserted write_image bind_insert bind_id
    to_image bind id_bind id_of_id_image
persisted = refl

persisted_up : (persist local report session).1.db.up ≡ true
unfolding persist current_transaction prepare_insert inserted write_image bind_insert bind_id
    to_image bind id_bind id_of_id_image
persisted_up = refl

updated : (update local row_report session_of_row).0 ≡ ok tt
unfolding update current_transaction prepare_update write_image write_id bind_update bind_update_id
    bind_id to_image bind id_bind id_to_image id_of_id_image put
updated = refl

updated_up : (update local row_report session_of_row).1.db.up ≡ true
unfolding update current_transaction prepare_update write_image write_id bind_update bind_update_id
    bind_id to_image bind id_bind id_to_image id_of_id_image put
updated_up = refl

persist_lem_example :
    Persisted report
      (λ k. Option.none)
      (persist local report session).1.db.table
      (persist local report session).0
persist_lem_example =
    persist_lem local_server plain_laws report session refl new_statements-IsSynced (omega arith)
      info-IsStorable

update_lem_example :
    ((update local row_report session_of_row).0 ≡ if_row (one_row 7))
    × ((update local row_report session_of_row).1.db.table ≡ replace 7 info one_row)
update_lem_example =
    update_lem local_server plain_laws row_report session_of_row refl new_statements-IsSynced
      (omega arith) (omega arith) info-IsStorable

erase_lem_example :
    ((erase local 7 session_of_row).0 ≡ if_row (one_row 7))
    × ((erase local 7 session_of_row).1.db.table ≡ remove 7 one_row)
erase_lem_example =
    erase_lem local_server plain_laws 7 session_of_row refl new_statements-IsSynced (omega arith)

find_lem_example :
    ((find local 7 session_of_row).0 ≡ ok (found local (object 7 (one_row 7))))
    × ((find local 7 session_of_row).1.db.table ≡ one_row)
    × IsUsable local 1 session_of_row (find local 7 session_of_row).1
find_lem_example =
    find_lem local_server plain_laws 7 session_of_row refl refl new_statements-IsSynced
      (omega arith) (omega arith)

find-persist_example : (find local 7 (persist local report session).1).0 ≡ ok (loaded row_report)
find-persist_example =
    find-persist local_server plain_laws report session row_report session-IsIdle info-IsStorable
      persisted persisted_up

find-update_example :
    (find local 7 (update local row_report session_of_row).1).0 ≡ ok (loaded row_report)
find-update_example =
    find-update local_server plain_laws row_report session_of_row session_of_row-IsIdle
      info-IsStorable (omega arith) updated updated_up

-- A report is stored, read, written over and erased.
abbrev operations : List (Operation integers)
operations = persisting report ∷ finding 7 ∷ updating row_report ∷ erasing 7 ∷ []

perform_all_lem_example :
    IsIdle local 0 (perform_all local operations session).1
    × Evolves operations
        (perform_all local operations session).0
        (λ k. Option.none)
        (perform_all local operations session).1.db.table
perform_all_lem_example =
    perform_all_lem local_server plain_laws operations session
      (info-IsStorable, ((omega arith), (((omega arith), info-IsStorable), ((omega arith), tt))))
      (record {
        in_transaction = refl;
        unlocked = refl;
        synced = new_statements-IsSynced;
        version = omega arith;
      })

prepare_insert-IsSynced_example :
    IsSynced plain (prepare_insert plain report new_statements)
    × ((prepare_insert plain report new_statements).insert_image_binding.bind
        ≡ bind plain (prepare_insert plain report new_statements).image statement_insert)
    × ((prepare_insert plain report new_statements).id_image_binding.bind
        ≡ id_bind plain (prepare_insert plain report new_statements).id_image)
prepare_insert-IsSynced_example =
    prepare_insert-IsSynced plain plain_laws report new_statements (omega arith)
      new_statements-IsSynced

abbrev closed_session : Session local
closed_session = record session { db = record session.db { begun = false } }

statements_lem_example :
    (bind plain blank statement_insert ≡ map (wired plain blank) data_columns)
    × (bind plain blank statement_update ≡ map (wired plain blank) data_columns)
    × (bind plain blank statement_select ≡ map (wired plain blank) (id ∷ data_columns))
    × (id_bind plain new_statements.id_image ≡ wired_number plain id ∷ [])
    × (persist_statement.text ≡ insert_text data_columns)
    × (update_statement.text ≡ update_text data_columns (id ∷ []))
    × (query_statement.text ≡ select_text (id ∷ data_columns))
    × (find_statement.text ≡ find_text (id ∷ data_columns) (id ∷ []))
    × (erase_statement.text ≡ delete_text (id ∷ []))
    × (erase_query_statement.text ≡ codes "DELETE FROM \"machineinfo\"")
    × (persist_statement_types ≡ oids data_columns)
    × (update_statement_types ≡ oids (data_columns ++ (id ∷ [])))
    × (find_statement_types ≡ oids (id ∷ []))
statements_lem_example = statements_lem plain blank new_statements.id_image

-- The report of the client a1.
a1_persisted :
    (persist local (new_object words 0 (codes "a1") Sent.report) session).0
    ≡ ok (new_object words 7 (codes "a1") Sent.report)
unfolding persist current_transaction prepare_insert inserted write_image bind_insert bind_id
    to_image bind id_bind id_of_id_image orm_object
a1_persisted = refl

a1_persisted_up :
    (persist local (new_object words 0 (codes "a1") Sent.report) session).1.db.up ≡ true
unfolding persist current_transaction prepare_insert inserted write_image bind_insert bind_id
    to_image bind id_bind id_of_id_image orm_object
a1_persisted_up = refl

find-get_orm_object_example :
    (bs : Bytes) × (serialize_to_string words Sent.report ≡ some bs)
    × (get_orm_object words (codes "a1") bs (serving (watched []))
        ≡ (ok (some (orm_object words (codes "a1") Sent.report)), serving (watched [])))
    × ((find local 7 (persist local (new_object words 0 (codes "a1") Sent.report) session).1).0
        ≡ ok (loaded (new_object words 7 (codes "a1") Sent.report)))
    × HasFigures words (codes "a1") Sent.report (orm_object words (codes "a1") Sent.report)
find-get_orm_object_example =
    find-get_orm_object words local_server words_laws plain_laws 0 (codes "a1") Sent.report
      (serving (watched [])) session (new_object words 7 (codes "a1") Sent.report) report-IsSendable
      report_short session-IsIdle a1_persisted a1_persisted_up
