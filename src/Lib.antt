-- ===== src/Lib.antt =====
-- Wash, a shell over cloud and container resources: the query language that its find uses, the
-- content of plugin entries, the cache of what plugins return, the listing of volumes, and the file
-- nodes of the FUSE mount.
--
-- The parts and how they meet. An entry of a plugin has attributes, actions, metadata and a
-- content. The API's find (api/rql) takes a query as JSON, reads it into nodes, and walks the
-- entries, asking the query of the schema of an entry, where one is known, and then of the entry;
-- before, it prunes the graph of schemas to what can satisfy the query. What plugins return is kept
-- in the cache of datastore, values and errors, by operation and entry: plugin/cache.go lists an
-- entry through it, gives each child its ID, looks entries up by their ID, and clears a subtree.
-- The find command parses expressions of its own, combining predicates on a stack.
-- A volume (volume) lists a remote file system as entries, from what find and stat print of it.
-- The FUSE server (fuse) shows entries as files: a file node reads through plugin.Read and gathers
-- what is written to it until Flush hands it to plugin.Write.
--
-- Which file models what.
-- - Rql/Host: float64, decimal, time, globs, regular expressions and ToUpper, as a record that the
--   definitions take; nothing is assumed of them beyond what a theorem names.
-- - Rql/Any, Rql/Outcome: interface{} as JSON decoding makes it, and the results of Unmarshal, where
--   a MatchError is told from other errors (api/rql/internal/matcher, errz, nonterminalNode.go,
--   munge/time.go).
-- - Rql/Ast, Rql/Entry: the nodes of a query by the type of what they are predicates on
--   (api/rql/internal/predicate, primary), entries and their schemas.
-- - Rql/Eval: EvalEntry, EvalValue, EvalString, EvalNumeric, EvalTime and EvalAction as one function
--   on the nodes; `none` is a panic, and && and || evaluate from the left.
-- - Rql/Reduce: reduce of predicate/expression/expression.go, on fuel; suc of reduce_measure is
--   enough.
-- - Rql/Schema: SchemaPredicate of the nodes, over the validator of a schema as a function from
--   values to Bool, so the panic on an error of the validator is left out; the fuel bounds how deep
--   element predicates are nested.
-- - Rql/EvalSchema: EvalEntrySchema of the nodes, and when an entry is included.
-- - Rql/Prune: prune and evaluateNodesToKeep of api/rql/prune.go over a graph whose nodes are numbers;
--   one more than the number of nodes is enough fuel for the depth of the calls and for the rounds.
--   The paths of the nodes are their numbers: trimming a path is left out, so no trimmed path equals
--   another node's.
-- - Rql/Walk: walk and visit of api/rql/walker.go over a finite tree of entries, each with what
--   plugin.List and plugin.Metadata return of it; Rql/Walk/Meets says what it is to meet.
-- - Rql/Wire: Marshal and Unmarshal; the fuel of Unmarshal bounds the depth of the value, and one
--   more than the height of the query is enough.
-- - Plugin/EntryBase: EntryBase of plugin/entryBase.go, with CName of plugin/methodWrappers.go.
-- - Plugin/Keys: the IDs of entries and the patterns that ClearCacheFor of plugin/cache.go clears by.
-- - Plugin/Listing: the children that cachedList collects into an EntryMap (plugin/entryMap.go).
-- - Plugin/Cache: CachedOp, cachedDefaultOp, cachedList, getCachedEntry, ClearCacheFor and
--   getSourceAncestorPathFromCache over MemCache; Plugin/Segments: parents and ancestors; one more than the length of the path is enough fuel
--   for the search of an ancestor.
-- - Plugin/Content: plugin.Read and plugin.Size (plugin/methodWrappers.go) over entryContent.go.
-- - Datastore/GoCache, Datastore/MemCache: go-cache as an interface with its laws, and the operations
--   of datastore/cache.go on it. An operation is told the time and what generateValue returns, and is
--   one step: concurrent misses of GetOrUpdate, which share the lock of the cache, are left out.
-- - Fuse/File: the state of fuse/file.go; Fuse/File/Handlers: Attr, Open, Release, Read, Write, load,
--   Flush, Setattr and Fsync, each from a state to a reply and the next state. Release calls
--   releaseWriter without the mutex; a handler is taken as one step all the same.
-- - Find/EvalStack: evalStack of cmd/internal/find/parser/expression/parser.go, which the expression
--   parser of the find command pushes on; Find/EvalStack/Folding and Documented say what it computes and
--   where that is the documented precedence; Find/Parser/Documented does so for whole expressions.
-- - Find/Parser: Parse and parse of the same file, with atom.go, the errors of parser/errz and the
--   composition of predicate/parser.go; the parser of primaries is a parameter, and three times the
--   number of tokens and three is enough fuel.
-- - Find/Numeric: cmd/internal/find/primary/numeric; an int64 is a bit pattern modulo 2^64, read as
--   signed at the end.
-- - Volume: volume/stat.go, the map of directories that a listing of a volume is read into; one more
--   than the length of a path is enough fuel for makeChildren. Volume/Posix and Volume/Powershell:
--   volume/statPosix.go and statPowershell.go; Volume/Fs: volume/fs.go over what exec returns;
--   Volume/Dir: the entries of volume/dir.go and volume/file.go and deleteNode of volume/core.go.
-- - Prelude/Texts: the functions of the package strings that these parts call, on texts;
--   Prelude/Maps: maps from texts.
-- - Munge/Mode: munge/mode.go; the bits of an os.FileMode are a record.
--
-- Numbers. Sizes and offsets of contents are naturals below 2^63, so that sums of int64 do not wrap;
-- the size of an entry is a uint64 and its conversion to int64 is written out.
--
-- Not modelled: error texts, logging, the setters of the cache, the texts of the commands of a
-- volume, the primaries and options of the find command, the HTTP API and its client, the other
-- commands, the plugins of the cloud providers, external plugin scripts, analytics, the journal and
-- transport, which are input and output around the parts above or follow later.
mod Prelude
pub mod Rql
pub mod Plugin
pub mod Fuse
pub mod Datastore
pub mod Find
pub mod Munge
pub mod Volume
