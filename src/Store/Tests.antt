-- ===== src/Store/Tests.antt =====
-- The message log at concrete messages.

use messaging_gateway.Prelude.{
  map, ℕ, ◌+◌, String, none, some, List, [], ◌∷◌, ◌≡◌, refl, length, arith, filter, length-sort_by,
}
use messaging_gateway.Samples.{message_of}
use messaging_gateway.Store.{Row, Db, insert_inbound, delete_older_than, row_of}
use messaging_gateway.Messages.Format.{whole, clean_text, wa_message_id_of}
use messaging_gateway.Store.Rows.{WellFormed, added}
use messaging_gateway.Store.Numbers.{
  Attempt, store_all, numbers, AllClean, count_from, store_all-WellFormed, numbers_contiguous,
}
use messaging_gateway.Store.Contract.{AllPlain, insert_all, record_all}
use messaging_gateway.Store.View.{view_of, sqlite_log, insert_all-sqlite_log}
use messaging_gateway.Store.Pages.{follow, all_after, number_of, is_after, follow_lem}
use messaging_gateway.Store.Feed.{no_messages, store_all-follow}
use messaging_gateway.Store.Retention.{Purged, delete_older_than-Purged}
use messaging_gateway.Store.Dedupe.{Plain, insert_inbound_idempotent}

abbrev empty : Db
empty = record { messages = []; counters = λ account. 0; seq_counter = 0 }

empty-WellFormed : WellFormed empty
empty-WellFormed = record { fits = tt; distinct = tt }

first-Plain : Plain (message_of "msg_1" "shop" "WA1")
unfolding clean_text wa_message_id_of
first-Plain = ((refl, refl), refl)

abbrev attempt : String → String → Attempt
attempt id wa = record { envelope = message_of id "shop" wa; raw = none; now = 7 }

-- The second is the first again, delivered by WhatsApp with another id of the gateway's.
abbrev attempts : List Attempt
attempts = attempt "msg_1" "WA1" ∷ attempt "msg_2" "WA1" ∷ attempt "msg_3" "WA3" ∷ []

attempts-AllClean : AllClean attempts
unfolding clean_text
attempts-AllClean = ((refl, refl), ((refl, refl), ((refl, refl), tt)))

three_attempts : numbers "shop" empty attempts ≡ 1 ∷ 2 ∷ []
unfolding numbers insert_inbound clean_text wa_message_id_of
three_attempts = refl

numbers_contiguous_example :
    (numbers "shop" empty attempts ≡ count_from 1 (length (numbers "shop" empty attempts)))
    × ((store_all empty attempts).counters "shop" ≡ 0 + length (numbers "shop" empty attempts))
numbers_contiguous_example =
    numbers_contiguous "shop" empty attempts attempts-AllClean empty-WellFormed

store_all-WellFormed_example : WellFormed (store_all empty attempts)
store_all-WellFormed_example =
    store_all-WellFormed empty attempts attempts-AllClean empty-WellFormed

abbrev first_stored : Db
first_stored = added empty (message_of "msg_1" "shop" "WA1") none 7

first_stored-WellFormed : WellFormed first_stored
unfolding row_of clean_text
first_stored-WellFormed = record {
  fits = ((ground arith, ground arith), tt);
  distinct = (refl, tt, tt);
}

delete_older_than-Purged_example :
    (after : Db) × (deleted : ℕ) × (delete_older_than 2 first_stored 8 ≡ some (after, deleted))
    × Purged first_stored after 8 deleted
unfolding row_of
delete_older_than-Purged_example =
    delete_older_than-Purged 2 first_stored 8 (ground arith) first_stored-WellFormed

insert_inbound_idempotent_example :
    (insert_inbound
      (insert_inbound empty (message_of "msg_1" "shop" "WA1") none 7).0
      (message_of "msg_1" "shop" "WA1")
      (some "{}")
      9).0
    ≡ (insert_inbound empty (message_of "msg_1" "shop" "WA1") none 7).0
insert_inbound_idempotent_example =
    insert_inbound_idempotent (message_of "msg_1" "shop" "WA1") none 7 first-Plain empty (some "{}")
      9 empty-WellFormed

-- Two messages of the account, the second stored first in the list, and a page of one.
abbrev two_stored : Db
two_stored = added first_stored (message_of "msg_2" "shop" "WA2") none 8

two_stored-WellFormed : WellFormed two_stored
unfolding row_of clean_text wa_message_id_of
two_stored-WellFormed = record {
  fits = ((ground arith, ground arith), ((ground arith, ground arith), tt));
  distinct = (refl, (ground arith, tt), (refl, tt, tt));
}

two_after : length (all_after two_stored "shop" 0) ≡ 2
unfolding all_after row_of clean_text
two_after = length-sort_by number_of (filter (is_after "shop" 0) two_stored.messages)

follow_lem_example : follow 3 two_stored "shop" 0 (whole 1) ≡ some (all_after two_stored "shop" 0)
follow_lem_example =
    follow_lem 3 two_stored "shop" 0 (whole 1) two_stored-WellFormed (omega (arith, two_after))

attempts-AllPlain : AllPlain attempts
unfolding clean_text wa_message_id_of
attempts-AllPlain = (((refl, refl), refl), (((refl, refl), refl), (((refl, refl), refl), tt)))

insert_all-sqlite_log_example :
    (view_of (insert_all sqlite_log empty attempts).0, (insert_all sqlite_log empty attempts).1)
    ≡ record_all (view_of empty) attempts
insert_all-sqlite_log_example =
    insert_all-sqlite_log empty attempts attempts-AllPlain empty-WellFormed

two_given : (store_all no_messages attempts).counters "shop" ≡ 2
unfolding store_all insert_inbound clean_text wa_message_id_of
two_given = refl

store_all-follow_example :
    (rows : List Row) × (follow 3 (store_all no_messages attempts) "shop" 0 (whole 1) ≡ some rows)
    × (map number_of rows ≡ count_from 1 ((store_all no_messages attempts).counters "shop"))
store_all-follow_example =
    store_all-follow 3 "shop" attempts (whole 1) attempts-AllClean (omega (arith, two_given))
