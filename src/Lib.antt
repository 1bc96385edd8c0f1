-- ===== src/Lib.antt =====
-- The record store of the SDK is a CRDT: every replica applies the changes of an object to
-- JSON-like documents, in whatever order they arrive, and each field of a document carries the
-- version that last wrote it. This library models that apply path, the directory internal/crdt, and
-- packages beside it that turn applied changes into what a user sees: live queries
-- (internal/subscribe), callback feeds (internal/fanout), the history of an object
-- (internal/history), the catch-up of a space at the start (internal/spacesync) and the addresses
-- of peers (internal/p2p/addrbook.go).
--
-- How the parts interact. A change (Crdt/Op.antt, op.go) carries operations for a record. The
-- record modifier (Crdt/Modifier.antt, Modify in controller.go with the hooks of handler.go)
-- decides between creating, deleting, absorbing into a tombstone and modifying; it calls the
-- operations (Crdt/Apply.antt, apply.go), which read a field's gate from the version tree under
-- `_ver` and write the field and its version (Crdt/Versions.antt, versions.go), or merge a broad
-- write into a subtree of finer-grained versions (Crdt/Merge.antt, mergeReplace in apply.go).
-- Values are moved by the helpers of Crdt/Nested.antt (setNested, unsetNested, addToSet,
-- pullFromSet, walkParent, getNumber in apply.go). At the end the modifier stamps sequences
-- (Crdt/Lifecycle.antt: stampAddSeq, stampApplySeq, newTombstone, lowerCreationMarker in apply.go),
-- updates the trace ids (Crdt/Traces.antt, traces.go) and compacts `_ver` (Crdt/Compact.antt,
-- compactVersions in versions.go).
--
-- Before an op reaches the modifier its paths are validated (Crdt/Validate.antt, validate.go) and its
-- fields checked against the scopes that the dataset declares (Crdt/Admission.antt: routeOf,
-- classifyFieldWrite, opContentValid and filterOpFields in controller.go, Scope and ScopeOf in
-- internal/schema/dataset.go). A write that a handler projects on another dataset passes by the hooks
-- (Crdt/Sibling.antt, applySibling and opTook in controller.go); the state of a run and the ops under
-- the hooks are in Crdt/Hooks.antt (recordModifier and beforeModifyApply). The apply sequence that the
-- stamps carry is minted by a counter (Crdt/ApplySeq.antt, applyseq.go). The children of a module hold
-- its proofs: Crdt/Apply/Replay.antt and Crdt/Apply/Converge.antt those on sequences of writes,
-- Crdt/Modifier/Deleted.antt those on deleted records.
--
-- The handler of a declared dataset (internal/crdt/schemahandler.go) is one instance of those
-- hooks: Crdt/SchemaHandler.antt has its rules and their checks, Crdt/SchemaHandler/Create.antt
-- BeforeCreate and Crdt/SchemaHandler/Modify.antt BeforeModify and BeforeDelete, over the rules
-- that every replica enforces, and Crdt/Shape.antt the declared shapes (KindOf and validateValue in
-- internal/schema/schema.go, subShapeSegs). The rules come from a declaration
-- (Crdt/SchemaHandler/Decl.antt, ValidateDatasetDecl in internal/schema/decl.go) that
-- NewSchemaHandler compiles (Crdt/SchemaHandler/Compile.antt); before a change enters the DAG,
-- PreValidateMulti checks it under the local rules (Crdt/SchemaHandler/PreValidate.antt). An
-- instance of Anyenc answers what the handler asks of a value; the id pattern is a test on texts.
--
-- A Controller (controller.go) applies the changes of one object. Crdt/Controller.antt has its
-- registrations (registerHandler), Crdt/Controller/Content.antt ValidateChange and the filter of a
-- change's ops; Crdt/Keys.antt the document ids of keyed datasets, which hold the rows of all
-- objects of a space (KeyedStoreId, KeyedBounds); Crdt/Resolve.antt the ids of records that come
-- without one (resolveRecordIds). ApplyChangeWithResult is Crdt/ApplyChange.antt: guards, ids,
-- filter, then one write transaction with the records and the projected writes
-- (Crdt/Transaction.antt: applyRecordChange, applySiblings), the stamps of the object's row
-- (Crdt/Stamping.antt: applyObjectStamps), the hook, the watermarks and the commit
-- (Crdt/Commit.antt). Crdt/Store.antt is the store below: collections of rows, and the watermarks
-- of an object (persistMeta in meta.go). A call of any-store gives its result unless a record of
-- answers says that it fails; a transaction works on a copy of the store, which a rollback drops.
-- The hash of a change id, a handler's hooks with the reads that they make, the stampers and the
-- hook of the apply path are arguments. The Controller's fields that a call changes are threaded
-- through it (Mirrors).
--
-- Documents are values of any-store's package anyenc, which lies outside the repository.
-- Anyenc.antt is its interface: the calls that the source makes, with laws that state their
-- documented behaviour on objects. Every definition takes it as an instance argument;
-- Tests/Json.antt is an instance on concrete documents. A float64 is a value of an abstract type of
-- numbers there; an integer below 2^53 goes through it unchanged. A call that changes a document in
-- place is a function to the changed document. Go strings are compared byte by byte
-- (Base/Order.antt); the record's handler is a record of hooks that return the sink and an error.
--
-- An applied change becomes an event (Subscribe/Event.antt: BuildEvent and projectOp in event.go),
-- the source of every update of a live query. A live query keeps a window of held records
-- (Subscribe/Window.antt, window.go) with its limit and one record beyond it, the sentinel.
-- Subscribe/Sub.antt (the methods of querySub in sub.go) has the transitions of the held set and
-- Subscribe/Apply.antt what an event does: apply, applyRecord and checkDrift. Scopes route the
-- events (Subscribe/Scope.antt, scope.go), and the engine keeps the table of subscriptions
-- (Subscribe/Engine.antt, engine.go), in which a pointer to a querySub is its number. The window's
-- sort keys are byte strings (Subscribe/Tuple.antt). An entry that the source updates in place is
-- written over the old one, and the boundary pointers are entries that follow it. Fanout.antt is
-- the registry of callbacks, AddrBook.antt the address book with the calls it makes.
-- History/Coalesce.antt (Coalesce) and History/Diff.antt (DiffRecordSets and what it calls) are the
-- parts of internal/history that do not read the database. SpaceSync.antt has Run,
-- SnapshotWatermark and ReconcileDeletions, where a record of answers stands for the head store and
-- the object store; a load that the object store fails is passed over, as in the source. Go's maps are the lists of pairs of Dict.antt; the order in which Go visits a
-- map is arbitrary, the list's is one of them. A mutex makes one operation one step.
--
-- Recursion over a document (maxVersion, collectVersionIdsInto, mergeReplace, compactSubtree) runs on
-- fuel, one more than the height of the node: the entries of an object are lower than the object
-- (height-entries), so the fuel does not run out.
--
-- Versions are compared as the source compares them; that two changes never share a version is a
-- hypothesis where it is needed. The uint64 of the apply sequence wraps at 2^64.
--
-- The loop of Coalesce over a page runs on fuel, the length of the page, and the comparison of two
-- values (diffValues) on their heights and one for each; both are enough.
--
-- The watermarks of an object are numbers without a bound in memory, where the source has a uint64;
-- the store keeps what a float64 reads back of them (persistMeta), which below 2^53 is the number
-- itself. A change's timestamp is a number of seconds from 0 on. strconv.Itoa runs on fuel, the number
-- itself.
--
-- Not modelled: of the controller the opening of collections and their indexes, PreValidateLocal
-- and the reads outside an apply; the other metadata rows of internal/crdt; of internal/history the
-- index, the replay and DiffObjects; and the packages that are orchestration over the network and
-- the database.
pub mod Base
pub mod Anyenc
pub mod AddrBook
pub mod Crdt
pub mod Dict
pub mod Fanout
pub mod History
pub mod SpaceSync
pub mod Subscribe
pub mod Tests
