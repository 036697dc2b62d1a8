-- ===== src/Components/History.antt =====
-- Sequences of insertions and removals.
use findus.Base.{ℕ, Bool, List, [], ◌∷◌}
use findus.Base.Int.{ℤ}
use findus.Components.{
  Inserted, insert_parallel_component, insert_parallel_component_collection,
  remove_parallel_component_collection,
}
use findus.Components.Consistent.{
  IsConsistent, insert_parallel_component-IsConsistent,
  insert_parallel_component_collection-IsConsistent,
  remove_parallel_component_collection-IsConsistent,
}

-- The calls of a program that inserts and removes.
pub data Command : Type 0 where
  insert_component : ℕ → List ℕ → Command
  place_element : ℕ → List ℕ → ℕ → ℤ → Command
  remove_element_of : ℕ → ℕ → Command

unfoldable pub perform : Command → Inserted → Inserted
perform (insert_component index name) s = (insert_parallel_component index name s).0
perform (place_element index name i node) s =
    (insert_parallel_component_collection index name i node s).0
perform (remove_element_of index i) s = (remove_parallel_component_collection index i s).0

unfoldable pub perform_all : List Command → Inserted → Inserted
perform_all [] s = s
perform_all (c ∷ cs) s = perform_all cs (perform c s)

perform-IsConsistent : (c : Command) (s : Inserted) → IsConsistent s → IsConsistent (perform c s)
unfolding perform
perform-IsConsistent (insert_component index name) s h =
    insert_parallel_component-IsConsistent index name s h
perform-IsConsistent (place_element index name i node) s h =
    insert_parallel_component_collection-IsConsistent index name i node s h
perform-IsConsistent (remove_element_of index i) s h =
    remove_parallel_component_collection-IsConsistent index i s h

perform_all_from :
    (cs : List Command) (s : Inserted) → IsConsistent s → IsConsistent (perform_all cs s)
unfolding perform_all
perform_all_from [] s h = h
perform_all_from (c ∷ cs) s h = perform_all_from cs (perform c s) (perform-IsConsistent c s h)

-- After any insertions and removals on a process that starts without components, whether they succeed or end with an exception.
pub perform_all-IsConsistent :
    (cs : List Command) (my_node_id : ℤ) (number_of_nodes : ℕ) (in_insert_mode : Bool)
    → IsConsistent (
        perform_all cs (record {
          my_node_id = my_node_id;
          number_of_nodes = number_of_nodes;
          in_insert_mode = in_insert_mode;
          distributed_objects = [];
        }))
perform_all-IsConsistent cs my n mode = perform_all_from cs _ tt
