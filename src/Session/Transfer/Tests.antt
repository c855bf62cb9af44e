-- ===== src/Session/Transfer/Tests.antt =====
-- The theorems about the file manager on a host with one slot and two offers.
use remote_x.Prelude.{
  ℕ, ◌++◌, ◌≡◌, ◌≢◌, refl, true, false, Bool, List, [], ◌∷◌, none, some, arith, length, ◌⊎◌, ◌<◌,
}
use remote_x.Prelude.Eq.{nat_eq}
use remote_x.Map
use remote_x.Map.{Map, lookup, insert, remove, retain, keys_where, without}
use remote_x.Common.Text.{Text, byte_len, codes, text_beq, text_eq}
use remote_x.Common.Peer.{FileMsg, offer}
use remote_x.Files.Names.{sanitize_relative, valid_component}
use remote_x.Session.Transfer.State.{
  host, viewer, alloc_id, FilePolicy, Transfer, FileManager, Out, pending, new, fresh, track,
  silently, update, active_count, count_active, is_active, is_viewer, is_open,
}
use remote_x.Session.Transfer.Incoming.{
  World, from_peer, is_known, on_offer, accept_incoming, is_queued, next_queued, start_queued,
  is_bad_name, ask_user,
}
use remote_x.Session.Transfer.Messages.{handle, on_msg}
use remote_x.Session.Transfer.Commands.{
  set_allowed, cancel_transfer, on_cancel_known, respond, download,
}
use remote_x.Session.Transfer.Calls.{Call, receives, downloads, step, run}
use remote_x.Session.Transfer.Sound.{core, IsFit, HasCore, IsSound, IsAsked, Inv, Free}
use remote_x.Session.Transfer.Preserve.Commands.{run-new-IsSound}
use remote_x.Session.Transfer.Queue.{count_queued, IsSettled, start_queued-settles}
use remote_x.Session.Transfer.Stuck.{start_queued-stuck}
use remote_x.Session.Transfer.Access.{IsRefused, IsAdmitted, on_offer-IsAdmitted, set_allowed-ends}

abbrev world : Bool → World
world opens = record {
  is_normal = λ c. true;
  place = λ name. name;
  numbered = λ name i. name ++ (i ∷ []);
  openable = λ name. opens;
  sha256 = λ bytes. length bytes ∷ [];
  file_size = λ path. some 3;
  found = λ path. none;
  list_directory = λ path. ([], none);
  per_second = λ bytes span. bytes;
}

-- A host with some slots.
abbrev slots : ℕ → FilePolicy
slots n = record { side = host; ask_before_receiving = false; max_file_size = 100; max_active = n }

abbrev policy : FilePolicy
policy = slots 1

abbrev start : FileManager
start = new policy true []

abbrev b_name : Text
b_name = codes "b"

-- A download that waits.
abbrev waiting : Transfer
waiting = record (fresh 3 b_name 5 false [] pending 0) { queued = true }

abbrev calls : List (ℕ × Call)
calls = (0, receives (offer 3 b_name 5)) ∷ []

-- With no slot at all, an offer waits.
abbrev full : FileManager
full = record (new (slots 0) true []) { transfers = (3, waiting) ∷ [] }

waits : run (world true) 5 calls (new (slots 0) true []) ≡ some full
unfolding run step on_msg handle on_offer from_peer is_known is_bad_name accept_incoming track
    silently active_count count_active lookup insert remove new fresh Map.empty sanitize_relative
    Map.contains valid_component byte_len text_beq
waits = refl

full_third : lookup 3 full.transfers ≡ some waiting
unfolding lookup new
full_third = refl

run-new-IsSound_example : IsSound (world true) (slots 0) 3 waiting
run-new-IsSound_example =
    run-new-IsSound (world true) (slots 0) 5 calls true [] full waits 3 waiting full_third

-- A book with one waiting download and a free slot.
abbrev book : FileManager
book = record start { transfers = (3, waiting) ∷ [] }

book-Inv : Inv (world true) policy Free book
unfolding Inv IsSound IsAsked HasCore IsFit core new Map.empty is_bad_name sanitize_relative fresh
    Map.contains valid_component byte_len text_beq
book-Inv = ((refl, tt), ((refl, (refl, refl, omega arith)), tt), tt)

one_waits : count_queued book.transfers < 2
unfolding count_queued is_queued fresh
one_waits = omega arith

start_queued-settles_example : IsSettled (start_queued (world true) 2 7 book)
start_queued-settles_example =
    start_queued-settles (world true) policy (λ name. refl) 2 7 book book-Inv one_waits

free_slot : active_count book < book.policy.max_active
unfolding active_count count_active is_active fresh new
free_slot = omega arith

book-only : next_queued (remove 3 book.transfers) ≡ none
unfolding next_queued remove
book-only = refl

book_third : lookup 3 book.transfers ≡ some waiting
unfolding lookup
book_third = refl

third_waits : is_queued waiting ≡ true
unfolding is_queued fresh
third_waits = refl

start_queued-stuck_example : start_queued (world false) 1000 7 book ≡ none
start_queued-stuck_example =
    start_queued-stuck (world false) 1000 7 3 waiting book free_slot book_third third_waits
      book-only refl

-- The user asks for a download at seven; three seconds later the peer offers a file.
abbrev asking : List (ℕ × Call)
asking = (7, downloads b_name) ∷ []

abbrev viewing : FilePolicy
viewing = record policy { side = viewer }

abbrev expecting : FileManager
expecting = record (new viewing true []) { next = 1; accept_offers_until = some 30_000_000_007 }

has_asked : run (world true) 3 asking (new viewing true []) ≡ some expecting
unfolding run step download alloc_id new Map.empty
has_asked = refl

on_offer-IsAdmitted_example :
    IsRefused (world true) 2 b_name 3 10 expecting (on_offer (world true) 2 b_name 3 10 expecting)
    ⊎ (IsAdmitted (world true) 2 b_name 3 10 expecting asking
        × (is_viewer expecting.policy.side ≡ false
            → expecting.policy.ask_before_receiving ≡ true
            → on_offer (world true) 2 b_name 3 10 expecting ≡ ask_user 2 b_name 3 expecting))
on_offer-IsAdmitted_example =
    on_offer-IsAdmitted (world true) 2 b_name 3 10 expecting viewing 3 asking true [] has_asked

set_allowed-ends_example :
    ((id : ℕ) (t : Transfer)
      → lookup id (set_allowed false book).0.transfers ≡ some t
      → is_open t.info.status ≡ false)
    × ((fuel : ℕ) (msg : FileMsg) (now : ℕ)
        → (outs : List Out) × (on_msg (world true) fuel msg now (set_allowed false book).0
            ≡ some ((set_allowed false book).0, outs)))
set_allowed-ends_example = set_allowed-ends (world true) book

-- Cancelling leaves the mark of a waiting download.
still_waits : next_queued (cancel_transfer 3 book).0.transfers ≢ none
unfolding next_queued is_queued cancel_transfer on_cancel_known is_known silently update lookup
    insert remove fresh
still_waits e = cc

-- An answer to a request that was asked before the permission went.
abbrev asked : FileManager
asked = record start { allowed = false; pending_approval = (3, (b_name, 5)) ∷ [] }

answered :
    (respond (world true) 3 true 0 (record asked { policy = slots 0 })).0.transfers
    ≡ (3, waiting) ∷ []
unfolding respond accept_incoming active_count count_active track silently lookup insert remove
    fresh new Map.empty
answered = refl
