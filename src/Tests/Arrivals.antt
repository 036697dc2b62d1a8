-- ===== src/Tests/Arrivals.antt =====
-- The messages of one reduction at process 3, whose children are 7 and 8, of Reduction.cpp.
use findus.Base.{ℕ, ◌+◌, List, [], ◌∷◌, some, none, ◌≡◌, refl, arith}
use findus.Base.Int.{ℤ, pos, negsuc}
use findus.Base.Result.{ok}
use findus.MessageHeader.{message_type, type_of_code, same_type}
use findus.Reductions.Interprocess.{ReductionMessage, InterprocessData}
use findus.Reductions.Arrivals.{arrivals, unused_entry}
use findus.Reductions.Completion.{arrivals_lem}

-- `metadata` holds the type `reduction`.
abbrev message : ℤ → ℤ → ℤ → ℕ → ReductionMessage ℕ
message source destination expected n = record {
  header = record {
    member_function_ptr = record { lower = 0; upper = 0 };
    target_collection_index = 0;
    metadata = 4611686018427387904;
    distributed_object_index = 0;
    data_offset = 128;
    source_process_id = source;
    destination_process_id = destination;
    quiescence_detection_sweep_number = 0;
  };
  id = 9;
  target_process_id = pos 1;
  expected_number_of_contributions = expected;
  expected_number_of_root_contributions = pos 0;
  contributed_metadata = 1;
  payload = n;
}

abbrev own_message : ReductionMessage ℕ
own_message = message (pos 3) (negsuc 1) (pos 3) 20

abbrev first_child : ReductionMessage ℕ
first_child = message (pos 7) (pos 3) (pos 0) 1

abbrev second_child : ReductionMessage ℕ
second_child = message (pos 8) (pos 3) (pos 0) 300

-- Id 9 meets the entry of id 5.
abbrev entries : List (InterprocessData ℕ)
entries =
    unused_entry ∷ record { reduction_id = 5; message = none } ∷ unused_entry ∷ unused_entry ∷ []

arrivals_example :
    (m : ReductionMessage ℕ) × (arrivals ◌+◌
        (pos 3)
        (first_child ∷ own_message ∷ second_child ∷ [])
        entries
      ≡ ok (none ∷ none ∷ some m ∷ [], entries))
    × (some m.payload ≡ some 321)
    × (m.id ≡ 9)
    × (m.header.destination_process_id ≡ pos 1)
    × (m.header.source_process_id ≡ pos 3)
unfolding message_type type_of_code findus.MessageHeader.type_code
arrivals_example =
    arrivals_lem ◌+◌ (pos 3) 9 (omega arith) entries 2 1 refl (omega arith)
      (record { reduction_id = 5; message = none }, refl, omega arith, omega arith, refl)
      (first_child ∷ []) (second_child ∷ []) own_message
      (record { kind = refl; same = refl; source = refl; expected = refl; plain = refl }, tt)
      (record { kind = refl; same = refl; source = refl; expected = refl; plain = refl }, tt)
      (record { kind = refl; same = refl; source = refl; expected = refl; plain = refl })
