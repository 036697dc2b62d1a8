-- ===== src/TaskDriver/Reducing/Upwards.antt =====
-- Where the messages of a reduction lead: to the process above, and on process 0 to the callback.
use findus.Base.{
  ℕ, suc, ◌+◌, ◌^◌, ◌<◌, Bool, true, false, List, [], ◌∷◌, ◌++◌, none, some, length, get_elem?, map,
  All, ◌≡◌, ◌≢◌, refl, ap, ◌∙◌, arith,
}
use findus.Base.Int.{pos, minus_one}
use findus.Base.Result.{ok, err}
use findus.MessageHeader.{
  MessageHeader, broadcast, type_code, number_of_bytes_in_message, data_was_serialized,
  data_alignment, no_collection_index, change_source_process_id, change_destination_process_id,
}
use findus.MessageBuffer.{create_buffer}
use findus.Reductions.Interprocess.{ReductionMessage, InterprocessData}
use findus.Reductions.Absorb.{IsArrival, add_payloads, total}
use findus.Reductions.Arrivals.{unused_entry, Probes}
use findus.Reductions.Completion.{first_header}
use findus.Serializer.State.{int_of_size}
use findus.TaskDriver.{
  TaskMessage, header_error, ReductionCallback, Payload, TaskDriver, Outcome, send_data, hand_over,
  send_message_impl,
}
use findus.TaskDriver.Children.{after_sending}
use findus.TaskDriver.LocalTasks.{of_buffer}
use findus.TaskDriver.Reducing.{byte_of, send_result, call_back, pass_on, send_reductions}
use findus.TaskDriver.Reducing.Arriving.{IsFor, passes_one_on}

sends_upwards :
    (fails : ℕ → Bool) (t : TaskMessage) (driver : TaskDriver) (n c size : ℕ)
    → ((k : ℕ) → fails k ≡ false)
    → driver.number_of_nodes ≡ pos n
    → t.header.destination_process_id ≡ pos c
    → c < n
    → number_of_bytes_in_message t.header ≡ size
    → size < 2 ^ 31
    → send_message_impl fails (some t) driver ≡ (after_sending size (t ∷ []) driver, none)
unfolding send_message_impl hand_over int_of_size
sends_upwards fails t driver n c size works nodes to below bytes small =
    ground (arith, works (length driver.sent), nodes, to, bytes)

number_of_bytes-metadata :
    (g h : MessageHeader)
    → g.metadata ≡ h.metadata
    → number_of_bytes_in_message g ≡ number_of_bytes_in_message h
unfolding number_of_bytes_in_message
number_of_bytes-metadata g h e = ground (arith, e)

module _ (fails : ℕ → Bool) (fresh : ℕ → ℕ) (decode : TaskMessage → ReductionMessage Payload)
    (encode : ReductionMessage Payload → TaskMessage) (op : Payload → Payload → Payload) (index : ℕ)
    (works : (k : ℕ) → fails k ≡ false)
    (keeps : (m : ReductionMessage Payload) → (encode m).header ≡ m.header) where
  with_sweep : TaskDriver → ReductionMessage Payload → ReductionMessage Payload
  with_sweep driver m = record m {
    header = record m.header { quiescence_detection_sweep_number = driver.local_sweep_number };
  }

  pass_on-upwards :
      (m : ReductionMessage Payload) (driver : TaskDriver) (p n c size : ℕ)
      → driver.my_node_id ≡ pos (suc p)
      → driver.number_of_nodes ≡ pos n
      → m.header.destination_process_id ≡ pos c
      → c < n
      → number_of_bytes_in_message m.header ≡ size
      → size < 2 ^ 31
      → pass_on fails fresh decode encode op m driver
        ≡ (after_sending size (encode (with_sweep driver m) ∷ []) driver, none)
  unfolding pass_on with_sweep
  pass_on-upwards m driver p n c size self nodes to below bytes small =
      let t = encode (with_sweep driver m) in
      let kept : t.header ≡ (with_sweep driver m).header = keeps (with_sweep driver m) in
      let same_bytes =
        number_of_bytes-metadata t.header m.header (ap (λ (h : MessageHeader). h.metadata) kept) in
      let sent =
        sends_upwards fails t driver n c size works nodes
          (ap (λ (h : MessageHeader). h.destination_process_id) kept ∙ to) below
          (same_bytes ∙ bytes) small in
      ground (arith, self, sent)

  -- On a process other than 0, whose probing for a reduction in the table of a component leads to a free
  -- entry, the messages of that reduction arrive: any number from other processes, which expect nothing themselves, and
  -- among them, at any place, the process's own, which says that one message more than those of the others is
  -- to come and names a process of the tree to send to. None of them brings the root, as its destination, a
  -- number of messages to wait for, the first to arrive has less than 2 ^ 31 bytes, MPI does not fail, and a
  -- message keeps its header when it is written. Then MPI is given one message and no more: the combination of all
  -- data in the order of the arrival, under the header of the first, from this process to the one that the own message
  -- names, with the sweep number of the driver. It is kept and counted as sent, and nothing else changes.
  pub send_reductions_lem :
      (id : ℕ) (nonzero : id ≢ 0) (driver : TaskDriver) (table : List (InterprocessData Payload))
      (found : get_elem? driver.reduction_tables index ≡ some table) (i d : ℕ)
      (unused : get_elem? table i ≡ some unused_entry) (near : d < length table)
      (leads : Probes id table d id i) (before after : List TaskMessage) (local : TaskMessage)
      (p n c size : ℕ)
      → All (IsFor fails fresh decode encode op index) (before ++ local ∷ after)
      → All (IsArrival id driver.my_node_id false 0) (map decode before)
      → All (IsArrival id driver.my_node_id false 0) (map decode after)
      → IsArrival id driver.my_node_id true
          (length (map decode before ++ map decode after) + 1)
          (decode local)
      → driver.my_node_id ≡ pos (suc p)
      → driver.number_of_nodes ≡ pos n
      → (decode local).target_process_id ≡ pos c
      → c < n
      → number_of_bytes_in_message (first_header (map decode before) (decode local)) ≡ size
      → size < 2 ^ 31
      → (m : ReductionMessage Payload) × (send_reductions fails fresh decode encode op
            (before ++ local ∷ after)
            (driver, none)
          ≡ (after_sending size (encode m ∷ []) driver, none))
        × (some m.payload ≡ total op (map decode before ++ decode local ∷ map decode after))
        × (m.id ≡ id)
        × (m.header ≡ record (first_header (map decode before) (decode local)) {
          source_process_id = driver.my_node_id;
          destination_process_id = (decode local).target_process_id;
          quiescence_detection_sweep_number = driver.local_sweep_number;
        })
  unfolding with_sweep change_source_process_id change_destination_process_id
  send_reductions_lem id nonzero driver table found i d unused near leads before after local p n c
        size all_for hb ha l self nodes to below bytes small =
      let (m, runs, whole, same, header) =
        passes_one_on fails fresh decode encode op index id nonzero driver table found i d unused
          near leads before after local all_for hb ha l in
      (
        with_sweep driver m,
        runs
            ∙ pass_on-upwards m driver p n c size self nodes
                (ap (λ (h : MessageHeader). h.destination_process_id) header ∙ to) below
                (number_of_bytes-metadata m.header (first_header (map decode before) (decode local))
                    (ap (λ (h : MessageHeader). h.metadata) header)
                  ∙ bytes)
                small,
        whole,
        same,
        ap
            (λ (h : MessageHeader). record h {
              quiescence_detection_sweep_number = driver.local_sweep_number;
            })
            header,
      )

-- Each combination keeps the callback of the data that came first.
callback-add_payloads :
    (op : Payload → Payload → Payload) (ms : List (ReductionMessage Payload)) (payload : Payload)
    → ((a b : Payload) → (op a b).callback ≡ a.callback)
    → (add_payloads op payload ms).callback ≡ payload.callback
callback-add_payloads op [] payload keeps = refl
callback-add_payloads op (m ∷ ms) payload keeps =
    callback-add_payloads op ms (op payload m.payload) keeps ∙ keeps payload m.payload

callback-total :
    (op : Payload → Payload → Payload) (before after : List (ReductionMessage Payload))
    (local : ReductionMessage Payload) (callback : ReductionCallback) (payload : Payload)
    → ((a b : Payload) → (op a b).callback ≡ a.callback)
    → All
        (λ (m : ReductionMessage Payload). m.payload.callback ≡ callback)
        (before ++ local ∷ after)
    → some payload ≡ total op (before ++ local ∷ after)
    → payload.callback ≡ callback
callback-total op [] after local callback payload keeps same whole =
    let e : payload ≡ add_payloads op local.payload after = ground (arith, whole) in
    ap (λ (q : Payload). q.callback) e ∙ callback-add_payloads op after local.payload keeps ∙ same.0
callback-total op (b ∷ before) after local callback payload keeps same whole =
    let rest = before ++ local ∷ after in
    let e : payload ≡ add_payloads op b.payload rest = ground (arith, whole) in
    ap (λ (q : Payload). q.callback) e ∙ callback-add_payloads op rest b.payload keeps ∙ same.0

module _ (fails : ℕ → Bool) (fresh : ℕ → ℕ) (decode : TaskMessage → ReductionMessage Payload)
    (encode : ReductionMessage Payload → TaskMessage) (op : Payload → Payload → Payload) (index : ℕ)
    (keeps : (a b : Payload) → (op a b).callback ≡ a.callback) (callback : ReductionCallback) where
  -- A broadcast that was given to the queue, or the exception of the message's constructor.
  abbrev pub announced : ReductionMessage Payload → TaskDriver → Outcome
  announced m driver =
      elim (create_buffer m.header.member_function_ptr callback.distributed_object_index (pos 0)
        (pos 0) driver.local_sweep_number (data_was_serialized m.header) (data_alignment m.header)
        (length m.payload.values) (byte_of m.payload.values) fresh no_collection_index broadcast) [
          | err e ↦ (driver, some (header_error e))
          | ok b ↦ (
            record driver {
              outgoing_messages = driver.outgoing_messages ++ (minus_one, of_buffer b) ∷ [];
            },
            none,
          )
        ]

  calls_back :
      (m : ReductionMessage Payload) (driver : TaskDriver)
      → driver.my_node_id ≡ pos 0
      → callback.message_type ≡ broadcast
      → m.payload.callback ≡ callback
      → pass_on fails fresh decode encode op m driver ≡ announced m driver
  unfolding pass_on call_back send_result send_data type_code
  calls_back m driver self kind same = ground (arith, self, kind, same)

  -- On process 0, with the table, the arrivals and the counts as on another process, when all messages bring
  -- the same callback, a broadcast, and a combination keeps that of the data that came first: one message is
  -- put into the queue for a broadcast to the object of the callback, with the combination of all data, or the exception
  -- of its constructor is thrown; nothing else is sent, and nothing else changes.
  pub send_reductions-broadcast :
      (id : ℕ) (nonzero : id ≢ 0) (driver : TaskDriver) (table : List (InterprocessData Payload))
      (found : get_elem? driver.reduction_tables index ≡ some table) (i d : ℕ)
      (unused : get_elem? table i ≡ some unused_entry) (near : d < length table)
      (leads : Probes id table d id i) (before after : List TaskMessage) (local : TaskMessage)
      → All (IsFor fails fresh decode encode op index) (before ++ local ∷ after)
      → All (IsArrival id driver.my_node_id false 0) (map decode before)
      → All (IsArrival id driver.my_node_id false 0) (map decode after)
      → IsArrival id driver.my_node_id true
          (length (map decode before ++ map decode after) + 1)
          (decode local)
      → driver.my_node_id ≡ pos 0
      → callback.message_type ≡ broadcast
      → All
          (λ (m : ReductionMessage Payload). m.payload.callback ≡ callback)
          (map decode before ++ decode local ∷ map decode after)
      → (m : ReductionMessage Payload) × (send_reductions fails fresh decode encode op
            (before ++ local ∷ after)
            (driver, none)
          ≡ announced m driver)
        × (some m.payload ≡ total op (map decode before ++ decode local ∷ map decode after))
        × (m.header ≡ record (first_header (map decode before) (decode local)) {
          source_process_id = driver.my_node_id;
          destination_process_id = (decode local).target_process_id;
        })
  unfolding change_source_process_id change_destination_process_id
  send_reductions-broadcast id nonzero driver table found i d unused near leads before after local
        all_for hb ha l self kind same =
      let (m, runs, whole, own, header) =
        passes_one_on fails fresh decode encode op index id nonzero driver table found i d unused
          near leads before after local all_for hb ha l in
      (
        m,
        runs
            ∙ calls_back m driver self kind (
                callback-total op (map decode before) (map decode after) (decode local) callback
                  m.payload keeps same whole),
        whole,
        header,
      )
