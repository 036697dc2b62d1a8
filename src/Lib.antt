-- ===== src/Lib.antt =====
-- findus: a library for asynchronous tasks over threads and MPI processes. This development models
-- the parts that keep their own state and checks what the rest of the program relies on.
--
-- The processes form a binary tree of ids (include/findus/ParentAndChildren.hpp,
-- src/ParentAndChildren.cpp): the modules ProcessTree and below. Reductions and the quiescence
-- detection over all processes send their messages along that tree. `count_first_descendants` and
-- `find_first_parent` are the two functions from which a reduction over some of the processes takes
-- for how many messages a process waits and where it sends its own. An `int` is an unbounded integer
-- here: the products that the code forms from ids below the number of processes are not wrapped. The
-- loops run on fuel that grows with the number of processes; the theorems show that it is enough,
-- since they state what the functions return.
--
-- Each message starts with a header (include/findus/MessageHeader.hpp, src/MessageHeader.cpp,
-- include/findus/MessageType.hpp, include/findus/Detail/MemberFunctionPtr.hpp): MessageHeader. Size,
-- alignment, type and a flag share one 64-bit word, the field `metadata` here and
-- `number_of_bytes_in_message_` in the code; the masks and shifts are those of the code, on numbers
-- below 2 ^ 64. The address of a message is a number. Placement of objects and printing are left out.
--
-- A message is a buffer (src/Message.cpp): MessageBuffer, with `create_buffer` for `create_message` and
-- `create_broadcast_to_buffer` for `create_broadcast_to_message`. Its bytes are a function of the
-- offset, and the address of a buffer suits its header and its data, as the code asks of `new`.
-- MessageBuffer.Metadata has the functions that store and load the metadata of a reduction.
--
-- A process counts the contributions of its threads to each reduction in a hash table
-- (include/findus/Detail/ReductionCounter.hpp, src/Detail/ReductionCounter.cpp): ReductionCounter.
-- `micro_step` is one atomic access of `Counter::increment`, and `increment` a call that runs alone,
-- on fuel, where twice the distance of the probing and seven steps are enough.
-- ReductionCounter.Callers lets the accesses of several threads for one key interleave.
--
-- Each thread keeps the data of its reductions in a table of its own, `DataHandler`
-- (include/findus/Reduction.hpp, src/Reduction.cpp): Reductions. The type of the data, its binary
-- operation and the message made of it are parameters. Reductions.Interprocess has the table of a
-- process for the messages of reductions, `combine_inter_process`, and what a process writes into its
-- own message, `set_interprocess_message_info`. The data of the messages are values that were not
-- serialized, and the binary operation does not throw. The loop over the table is bounded by its size.
--
-- What is sent goes through a serializer (include/findus/Serialize/Serializer.hpp,
-- src/Serialize/Serializer.cpp): Serializer.State, where the memory gives the byte at each address,
-- pointers are offsets from the start of the buffer, and what the language leaves undefined is an
-- error. The object representation of types that are copied as bytes is a parameter, `AsBytes`, with
-- the law `IsAsBytes`. Serializer.Scalars has the call operators, Serializer.Containers and
-- Serializer.Associative the operators for the containers of the standard library
-- (include/findus/Serialize/Stl), and Serializer.Virtual the registry of derived classes
-- (include/findus/Serialize/Virtual.hpp). The contract `Refines` of Serializer.Contract says that an
-- object has its bytes, which sizing counts, packing writes and unpacking turns into an object of the
-- same value; the other modules show that the operators keep it when those of the elements do. The
-- value of an object leaves out the capacity. Objects are unpacked into fresh ones. The standard
-- library's containers are lists; maps and sets are a parameter, `Container`, with the law `Rebuilds`.
--
-- The threads of a process take tasks from one queue (include/findus/ThreadPool.hpp): ThreadPool. Its
-- counters of idle threads and of tasks sent and processed are those of `qd::Local`
-- (include/findus/QuiescenceDetection.hpp, src/QuiescenceDetection.cpp): LocalQd. Each access of an
-- atomic counter and of the queue is a step, and the steps of the threads and of the driver, which
-- adds tasks and asks `is_quiescent`, interleave in any order. The counters do not wrap. The memory is
-- sequentially consistent: reorderings by the memory orders named in the code are not modelled. The
-- queue is third-party code, of which only this is used: a task that was enqueued may be dequeued, in
-- any order. The printing of the threads, their pinning to cores and the stopping are left out.
--
-- Over the processes `qd::Global` of the same two files sends sweeps down and up the tree of processes
-- to find out that no message is under way: GlobalQd has the messages and the state of a process,
-- GlobalQd.Traverse the down traversal and GlobalQd.Collect the up traversal, `check` and
-- `safe_reset`. MPI is a parameter: `fails` says which calls do not succeed, `done` which requests are
-- complete, and the record `Net` holds the messages that have arrived and those that were sent. A call
-- that fails is an error value, as the exception in the code. The loop over the messages of a child
-- ends with the list of those that have arrived. The counts are integers that do not wrap.
--
-- A lock of one atomic flag (include/findus/Spinlock.hpp): Spinlock, where each access of the flag by
-- `lock`, `try_lock` and `unlock` is a step of one thread.
--
-- The driver of a process (include/findus/DistributedTaskDriver.hpp, src/DistributedTaskDriver.cpp):
-- TaskDriver. A call gives back the driver and, if an exception left it, the exception. TaskDriver has
-- the functions that send a message to the threads of the process, through MPI to another process, and
-- to the children of the process in the tree; TaskDriver.LocalTasks the tasks that a broadcast makes on
-- a process, TaskDriver.Receiving `clean_incoming_mpi_messages`, TaskDriver.Sending `initiate_sends`, and
-- TaskDriver.Running `initiate_receives`, `clean_outgoing_mpi_messages` and the loop of
-- `run_to_quiescence`, where the record `World` says what MPI and the threads answer in a round. The
-- algorithm `std::remove_if` is modelled as the moves that it makes. The loops are bounded by their
-- arguments, the loop to quiescence by a number of rounds. What is done with a message of a reduction is
-- a parameter there; TaskDriver.Reducing has the function that does it, `send_reduction_message_impl`, which
-- adds the message to the table of Reductions.Interprocess and sends what leaves the table to the callback
-- or up the tree; TaskDriver.Reducing.Upwards says where its result leads. How the metadata and the data lie in such a message is a parameter of it, and the tables
-- of the components are a list beside the components. TaskDriver.Children.Everywhere has the
-- broadcast on all processes of a tree.
--
-- Before it runs, a program inserts components: Components, with the functions that insert and remove,
-- and the invariant that they keep. All processes must insert the same: Accounting has the buffer that
-- a process writes of its components and the comparison of two buffers, byte by byte, and
-- Accounting.Consistency the check along the tree of processes. A loop over the elements of a
-- collection is bounded by their number, below 2 ^ 32, and by the length of the buffer otherwise.
--
-- The options of the command line (include/findus/Options.hpp, src/Options.cpp): Options. A text is the
-- list of its characters; `std::stoi` is a parameter.
--
-- Base holds the shared tests on numbers, integers, lists, sums and bit fields, and Tests runs of the
-- code on small inputs.
--
-- Some failures are left out: asking MPI for the status of a receive does not fail, the answers about
-- quiescence that a round of the loop to quiescence gets are Booleans without exceptions, and the barrier at the end of a
-- reset of the global detection changes nothing on the process. The size of an item of a block of bytes is any number, where the code has 8 bits for it. Where the code reads a message through a null
-- pointer, the model ends with the value `null_dereference`, which stands for undefined behaviour.
--
-- Not modelled: the combination of serialized data, the templates of the
-- task driver over user types (invoke, broadcast and broadcast_to), hardware information and 128-bit
-- atomics, which are assembly.
pub mod Base
pub mod ProcessTree
pub mod MessageHeader
pub mod MessageBuffer
pub mod ReductionCounter
pub mod LocalQd
pub mod GlobalQd
pub mod Reductions
pub mod Serializer
pub mod Spinlock
pub mod Options
pub mod Components
pub mod Accounting
pub mod TaskDriver
pub mod ThreadPool
pub mod Tests
