-- ===== src/Postgres/Tests.antt =====
-- The PostgreSQL store at concrete messages, beside the SQLite store.
use messaging_gateway.Prelude.{String, none, some, List, [], ◌∷◌, ◌≡◌, refl, arith}
use messaging_gateway.Samples.{message_of}
use messaging_gateway.Messages.Format.{clean_text, wa_message_id_of}
use messaging_gateway.Store
use messaging_gateway.Store.{Db, insert_inbound, row_of}
use messaging_gateway.Store.Rows.{WellFormed}
use messaging_gateway.Store.Numbers.{Attempt}
use messaging_gateway.Store.Contract.{AllPlain, insert_all, added, repeated}
use messaging_gateway.Store.View.{view_of, sqlite_log}
use messaging_gateway.Postgres
use messaging_gateway.Postgres.Contract.{postgres_log, stores_agree}
use messaging_gateway.Postgres.Purge.{delete_older_than-same}

abbrev empty : Db
empty = record { messages = []; counters = λ account. 0; seq_counter = 0 }

empty-WellFormed : WellFormed empty
empty-WellFormed = record { fits = tt; distinct = tt }

abbrev attempt : String → String → Attempt
attempt id wa = record { envelope = message_of id "shop" wa; raw = none; now = 7 }

abbrev attempts : List Attempt
attempts = attempt "msg_1" "WA1" ∷ attempt "msg_2" "WA1" ∷ attempt "msg_3" "WA3" ∷ []

attempts-AllPlain : AllPlain attempts
unfolding clean_text wa_message_id_of
attempts-AllPlain = (((refl, refl), refl), (((refl, refl), refl), (((refl, refl), refl), tt)))

-- The duplicate takes no number, but a sequence.
three_answers :
    (insert_all postgres_log empty attempts).1
    ≡ added (some 1) ∷ repeated "msg_1" (some 1) ∷ added (some 2) ∷ []
unfolding insert_all postgres_log Postgres.insert_inbound clean_text wa_message_id_of
three_answers = refl

three_sequences : (insert_all postgres_log empty attempts).0.seq_counter ≡ 3
unfolding insert_all postgres_log Postgres.insert_inbound clean_text wa_message_id_of
three_sequences = refl

stores_agree_example :
    ((insert_all postgres_log empty attempts).1 ≡ (insert_all sqlite_log empty attempts).1)
    × (view_of (insert_all postgres_log empty attempts).0
        ≡ view_of (insert_all sqlite_log empty attempts).0)
stores_agree_example =
    stores_agree empty empty attempts attempts-AllPlain
      (record { formed = empty-WellFormed; numbered = tt }) empty-WellFormed refl

abbrev one_stored : Db
one_stored = Store.Rows.added empty (message_of "msg_1" "shop" "WA1") none 7

one_stored-WellFormed : WellFormed one_stored
unfolding row_of clean_text
one_stored-WellFormed = record {
  fits = ((ground arith, ground arith), tt);
  distinct = (refl, tt, tt);
}

delete_older_than-same_example :
    Store.delete_older_than 2 one_stored 8 ≡ some (Postgres.delete_older_than one_stored 8)
delete_older_than-same_example =
    delete_older_than-same 2 one_stored 8 (ground arith) one_stored-WellFormed
