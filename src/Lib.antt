-- ===== src/Lib.antt =====
-- The containers of DataStructures: a singly linked list, a binary search tree and a hash map,
-- each a class template in one or two headers. They do not use one another; each owns its nodes.
-- And the interpreter of a small Python in Parsers/Punypy-parser: a scanner feeds a parser, whose
-- productions an analyzer checks and an interpreter runs in one world of variables and functions;
-- the calculator in Parsers/Calculator; and the active object in Patterns/Active_object.
--
-- - Common: the names, tests and list functions that all modules use.
-- - Memory: the heap behind the pointers of the list, `SLL_Node`, and the commands on it. A run
--   ends in a value and a heap, or says why not: `std::bad_alloc`, a failed JAM_EXPECT, a read
--   through an invalid pointer, or too few rounds. Memory.Cells says which addresses, in which
--   order, form a list; Memory.Growth says what a new node changes. The allocator is a parameter:
--   an address that it gives is not null and no object lives at it.
-- - SingleLinkedList models
--   DataStructures/SingleLinkedList/include/single_linked_list/single_linked_list.hpp. Modifiers
--   holds construction, insertion, erasure and `resize`; Operations holds `reverse`, `remove_if`,
--   `unique`, `sort` and `merge`; Transfer holds `swap`, move construction and the assignments.
--   A list is the address of its `head_`. The other modules prove one operation or a few each;
--   Bubble is the part of the proof of `sort` that needs no heap.
-- - BinaryTree models DataStructures/BinaryTree/include/binary_tree/binary_tree.hpp. A node is
--   owned by one link, so a tree is a value (Tree), and a `Node**` is the path from the root to
--   the link. Traversal holds the recursive and the stack traversals, Iterator the in-order
--   iterator with its stack, Preorder and Backward the other two, Interface and Position the
--   members that wrap the functions on nodes. Update relates every operation that writes through
--   a link to one change along a path; Writes, Assign, Least, Erase, Insert, Duplicates, Visits and Iteration
--   hold the theorems. The order on keys and values is an interface (Order).
-- - HashMap models DataStructures/HashMap/include/hash_map/hash_map.hpp (Table) and
--   hash_map_bucket.hpp (Bucket). A bucket is the list of its entries, the table an array of
--   buckets with `size_` and `count_`. The hasher and `operator==` are an interface (Key).
--   Entries and Erasure prove what a bucket operation does to the values under the keys, Slots what a write
--   to one bucket does to the table; Operations, Flatten, Rehash, Lookups and Copy hold the
--   theorems. The iterators read one bucket beyond the array; what stands there is the parameter
--   `beyond`, or, where two reads of it are compared, `node_beyond`.
-- - PunyPy models Parsers/Punypy-parser. Token and Scanner are Token.h, Scanner.h and Scanner.cpp:
--   a stream is the characters that are left and its eofbit and failbit. Parser is Parser.cpp; its
--   `fuel` bounds the depth of an expression and the rounds of the loops. Syntax, World, Analyzer
--   and Interpreter are the productions (Production.h, Production.cpp), PunyPyWorld, Analyzer.h and
--   Interpreter.h; `interpret` is given how deep calls may nest. Program is main.cpp. A run (Run)
--   ends in a value, an exception, undefined behaviour or without rounds. A buildin is a function
--   from its arguments to what it prints and its value. Reading and Buffer say what a scanner has
--   yet to give, Rounds that `get` ends, Lexing which text spells a token; Print and RoundTrip
--   relate productions to their tokens; Sound is the analyzer's promise.
-- - Calculator models Parsers/Calculator/Calculator.cpp: Stream holds `TokenStream` and
--   `VariableMap`, Evaluator the members that compute while they read, up to `run`; `fuel` bounds the
--   depth of an expression and the rounds of its loops. The arithmetic of `double` is an interface
--   (Double). Meaning says what an expression is worth; Reading, Rounds, Operators and Correct
--   relate it to the code.
-- - ActiveObject models `Active` of Patterns/Active_object (active.h, active.cpp) over
--   `threadsafe_queue` (threadsafe_queue.h): an interleaving is a list of actions of the senders, the
--   active thread and the owner; a member of the queue holds its mutex throughout and is one action.
--   Order and Steps hold the invariant, Shutdown what a client sees.
-- - Typelist models Metaprogramming/typelist. A type is an element of an abstract type with what the
--   compiler knows of it (Meta.Types), a template that is specialized on packs is a function by
--   clauses on a list (Operations, Algorithms, Derived), and one that takes a list apart by `front`
--   and `pop_front` is written over an interface (Interface, Recursive) that `typelist` and
--   `valuelist` fill. A template names a type, is ill formed, or is nested too deep.
-- - StateMachines models one animation in eight designs: Naive and Table are naive_fsm/fist.cpp and
--   second.cpp, FirstHack, Second, Third and Fourth the files of variant_fsm, Tiny is
--   tiny_fsm/first.cpp, Static is static_fsm/first (fsm.hpp, traits.hpp, fsm.cpp), all under
--   State_machines. Machine is the interface: a machine `Animates` when it steps as the animation
--   `animate` does, under an invariant of its own.
-- - OutputIterators models Metaprogramming/output_iterators over tuple_algorithms: an output iterator
--   is a state with `*it = value` and `++it`, an adaptor makes one of others, and a tuple has elements
--   of one type with its size in its type.
-- - Run, Characters and Dictionary hold what PunyPy and the calculator share: runs with exceptions
--   and undefined behaviour, character classes, and maps by name.
-- - Tests applies the theorems to small inputs.
--
-- A `while` loop over nodes recurs on a number of rounds. One round more than there are nodes is
-- enough for each, and for the outer loop of `sort` one more than there are inversions; the
-- theorems that a loop ends say so. The calls of an analyzed PunyPy program nest at most as deep
-- as there are functions, `Scanner::get` calls itself at most twice on a
-- stream that has not failed; the fuel of the parsers is
-- enough from the size of what is parsed on. Numbers of elements are natural numbers without a bound,
-- except where the code wraps: `--count` in `make_n` is computed modulo 2 ^ 64, the counters of the
-- machines and the index of `find_index_of` modulo 2 ^ 32. The recursive templates have a depth of
-- nested instantiations, for which one more than there are elements is enough.
--
-- Not modelled: the propagation of allocators and construction with another allocator, exceptions
-- thrown by the element type, the hinted forms, erasure of a range and through
-- iterators of a table, assignment of trees, moves of trees and tables, `reserve`; the addresses
-- of the nodes of trees and buckets, and with them the release of their memory. Of PunyPy, the printing
-- by `rep` and characters that are neither ASCII nor 255. Of the tuples, elements of several
-- types and moves out of a value; of the machines, the tuple machines, which dispatch as the
-- static one does and hold their states as objects. State_machines/sml_fsm/sml.hpp is a library of another project.
-- The other directories of the repository hold demonstrations, and are not modelled.
pub mod Common
pub mod Memory
pub mod Run
pub mod Characters
pub mod Dictionary
pub mod SingleLinkedList
pub mod BinaryTree
pub mod HashMap
pub mod PunyPy
pub mod Calculator
pub mod ActiveObject
pub mod Typelist
pub mod StateMachines
pub mod OutputIterators
pub mod Tests
