-- ===== src/Lib.antt =====
-- pwxlib: a C++ library of thread-safe containers (src/container) over a lock (src/basic), with
-- logging, argument handling, randomness and helpers around them. This development models the lock,
-- the hash containers, both linked lists and the argument handler.
--
-- The lock, basic/CLockable.{h,cpp}. Every container and every element derives from `CLockable`.
--   Lockable         the fields of one object and its methods, run by one thread without
--                    interruption: `lock`, `try_lock`, `unlock`, `clear_locks`, `do_locking`
--                    (`set_locking` here), `lock_count`, copy, assignment and destructor. The
--                    spinlock build (PWX_USE_FLAGSPIN) is the one modelled; a `lock` that spins on
--                    another thread's flag is `none`.
--   Lockable.Group   `are_locked`, `try_locks` and `unlock_all` over two and three pointers into a
--                    store, so that two of them may name one object.
--   Lockable.Guard   basic/CLockGuard.{h,cpp}: a guard over up to three objects of the store; its loop
--                    on `try_locks` runs on fuel, of which one round is enough if they succeed.
--   Lockable.Threads the same methods cut into single loads, stores and read-modify-writes, as a
--                    step function over any number of threads; a schedule is a list of turns.
--                    Memory is sequentially consistent there; the relaxed orders of the code are
--                    not modelled.
--
-- The hashes, container/VTHashBase.h, TOpenHash.h, TChainHash.h, THashElement.h. `VTHashBase` holds
-- the table and the public methods, the two others the virtual methods that place elements.
--   Hash             elements, the table and its accessors (`table_get`, `table_set`,
--                    `table_vacate`, `protIs...`). The array is a function of the index.
--   Hash.Method      `privSetHashMethod`.
--   Hash.Stepping    `TOpenHash::privGetStepping`.
--   Hash.Open        `TOpenHash`: probing, insertion by Robin Hood, removal, lookup. `Path` is the
--                    sequence of places that a key probes, `Lookup` the well-formedness
--                    (`IsPlaced`), `Change` and `Round` what one write does, `Total` and `Ensures`
--                    that insertion ends, `Abstract` the finite map that the table stands for.
--   Hash.Chain       `TChainHash`, and that it is a finite map; `Effect` sums up its changes.
--   Hash.Public      the public methods of `VTHashBase` over a record of the virtual ones, with the
--                    counters `clearing`, `growing`, `inserting` and `removing` of the HASH_ macros.
--                    `Laws` is the interface that a derived hash fills, `Chained` fills it.
--   Hash.Public.Whole  constructors, destructor, the operators `=`, `+=` and `-=`, and
--                    the queries for the size.
--   ElementStore     container/CThreadElementStore.{h,cpp} and VElement.{h,cpp}: the current element
--                    of each thread, over the public methods of an open hash, and elements that invalidate
--                    themselves in their store. One call runs at a time.
--
-- The singly linked list, container/TSingleElement.h, TSingleList.h and TStack.h. Elements stand on a
-- heap, a function from addresses; address 0 is `nullptr`. A call returns, throws with the state that
-- it leaves, or is `undefined`: it uses an address that holds no element, or fuel ran out.
--   SingleList         elements, heap, and the fields of the list. `curr_ptr` is what the list's
--                      `currStore` holds for the thread that calls.
--   SingleList.Element   `getNext`, `setNext`, `insertBefore`, `insertNext`, `remove`, `removeNext`;
--                      `Edit` and `Splice` say what each changes.
--   SingleList.Linked  the well-formedness `Holds`: the list of addresses that a list stands for;
--                      `Behind` has insertion and removal on such lists.
--   SingleList.Numbers   the ends and the numbers: `head( new_head )`, `protRenumber`.
--   SingleList.Insert, Remove, Find, Index, Sorted   `protInsert`, `privRemoveAfterElement`,
--                      `protDelete`, `privClear`, `protFind`, `protFindData`, `privFindPrev`,
--                      `privGetElementByIndex`, `protFindGreaterNext`.
--   SingleList.Public, Safety, Stack   the public methods, the operators `=`, `+=` and `-=`, and the
--                      switching of thread safety.
--   SingleList.Store   that `curr_ptr` is what a store without thread safety keeps.
--
-- The doubly linked list, container/TDoubleElement.h and TDoubleList.h, on a heap of its own elements.
--
--   DoubleList         elements, heap, and the fields of the list.
--   DoubleList.Element   `getNext`, `getPrev`, `setNext`, `setPrev`, `insertNext`, `insertPrev`,
--                      `remove`, `removeNext`, `removePrev` and `operator=`.
--   DoubleList.Edit, Splice, Removal   what these do to an element and its neighbours.
--   DoubleList.Chained, Ahead, Unchained   what they do to a chain of elements.
--   DoubleList.Numbers, Numbered   `head( new_head )`, `protRenumber`, and the chain under them.
--   DoubleList.Insert, Remove, Find   `protInsert`, `privRemove`, `protFind`, `privFindPrev`, and the
--                      methods over data and elements that call them.
--   DoubleList.Held    the well-formedness `IsList`, and insertion; Left: removal; Undone: both;
--                      Last: what removing the only element does.
--
-- The argument handler, arg_handler/. It keeps its targets in two chained hashes, by short and by long
-- name, and in a queue of positional targets; so it stands on `Hash.Public` with `TChainHash`.
--   ArgHandler       VArgTargetBase.{h,cpp}, sArgError, the enumerations, the fields of CArgHandler. The
--                    targets lie in a store, the variables that they set in a memory.
--   ArgHandler.Queue  the queues, TQueue.h: lists, of which a `pop` of the last element or a `clear` has
--                    no result, as `head( nullptr )` dereferences the null pointer there
--                    (DoubleList.Last). `none` is a run that waits or has no defined behaviour.
--   ArgHandler.Process  TArgTarget.{h,cpp}: `process`, `process_cb`; `procTarget` of CArgHandler.
--   ArgHandler.Register  constructor, `addArg`, `addPassthrough`, `clearArgs`, `getTarget`, the errors;
--                    `Access` has the overloads of `addArg` and the `getHelp...` methods.
--   ArgHandler.Parse  `parseArgs` with its steps, `uncombine`, `passThrough`, `resetTargets`.
--   ArgHandler.Help  `formatHelpArg`, `formatHelpDesc`, `formatHelpStr`, the layout; `size_t` has 64 bits.
--   ArgHandler.Lookup, Collect, Frame, Total, Known, Added, Once, Mandatory, Help.Aligned, Help.Endless
--                    the theorems: names as finite maps, the sorting of arguments, what processing
--                    leaves alone, the whole run, adding, repeating, the walks over the hashes, the
--                    layout.
--
--   Tests            the theorems at concrete objects, schedules and tables.
--
-- Numbers are the native naturals; a `uint32_t` wraps at 2 ^ 32 where the code lets it. What the
-- code computes in floating point from a hash, `floor( ( h * 0.618 - floor( h * 0.618 ) ) * n )`, is
-- the parameter `scale` of `Hashing`, of which only `scale h n < n` is used; the second hash is the
-- parameter `second`; the load test and the grown size are the parameters of `Growth`. The key's
-- hash and its `==` are the record `Key`, where `==` decides equality, as it does for keys that are
-- no floating point numbers.
--
-- A loop that may not end runs on fuel, and `none` is a run that does not return within it. For
-- `privGetStepping` the table size is the fuel, with the theorem that it is enough from 10 places
-- on; `privInsert` needs `hash_size` squared and one rounds at most, since each eviction raises the
-- sum of the hops; `privSetHashMethod` needs 31 rounds; `clear` needs `hash_size` rounds.
--
-- The hash methods are run by one thread, so that their lock guards pass; a macro that waits for a
-- counter which no other thread lowers does not return. So are the methods of the lists; a loop that
-- walks over a list needs a round for each element and up to three more. Debug checks (LIBPWX_DEBUG), log output,
-- allocation failures and the memory behind `std::shared_ptr` are left out. Not modelled are the
-- rings, sets and queues of container/, what the doubly linked list has beyond insertion, removal
-- and the search by pointer, the log, the random numbers, the stream and math helpers and the wave
-- colours. Of the argument handler, what its callbacks do to the program,
-- the conversion of texts to numbers (`Number`), and the freeing of targets are left out; its code
-- runs without assertions.
pub mod Base
pub mod Lockable
pub mod Hash
pub mod ArgHandler
pub mod ElementStore
pub mod SingleList
pub mod Stack
pub mod DoubleList
pub mod Tests
