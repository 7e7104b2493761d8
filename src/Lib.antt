-- ===== src/Lib.antt =====
-- audioneex: the fingerprint index, from an indexing session to the bytes in a data store and back,
-- with the audio buffers before it, and the recognizer that identifies audio by it.
--
-- An indexing session (src/index/Indexer.cpp, IndexerImpl) turns a fingerprint into terms and adds
-- an element to the postings list of each in a cache (IndexCache). When the cache is full, DoFlush
-- cuts every list into chunks, has BlockEncoder (src/index/BlockCodec.cpp) serialize, delta-code
-- and compress each, and hands the bytes to the client's data store (src/audioneex.h), which
-- appends them to the last block of the list or starts a new one. PListIterator
-- (src/index/DataStore.h) reads the blocks back.
--
-- A recognizer (src/ident/Recognizer.cpp) hands audio to its matcher (src/ident/Matcher.cpp), which
-- searches the index for each batch of twenty fingerprints: candidates get a time histogram each,
-- the best ones are matched by their graphs, and their scores are added up. The recognizer
-- classifies the best matches (src/ident/MatchFuzzyClassifier.cpp), or compares their confidence
-- with a threshold, and fills in the results.
--
-- The driver for Tokyo Cabinet (src/dbdrivers/TCDataStore.cpp) is such a data store. It keeps each
-- block as a record of a database, the headers in front; a BUILD_MERGE session writes to a delta
-- index, which Merge puts behind the live one at its end.
--
-- The files:
--   * Memory, Prelude: arrays, machine words, the outcomes of code that throws (`err`) or has
--     undefined behaviour (`fault`). `stuck` is a loop that ran out of fuel, or an audio provider
--     that never ends, and no outcome of the program.
--   * Postings: a posting and its layouts in the cache and in a block.
--   * Codec: BlockEncoder with VByteCODEC (Codec/VByte), DeltaCodec (Codec/Delta), Serialize
--     (Codec/Serialize) and Encode and Decode (Codec/Block).
--   * Cache: IndexCache; Cache/Spec is the list of postings that an array stands for, Cache/View
--     the cache as a map.
--   * Store: the headers of src/audioneex.h and the data store, whose operations are the fields of
--     a record and whose documented behaviour is another record, the laws.
--   * Flush: DoFlush; `emit` is its body for one chunk, `flush_loop` the loop over the postings of
--     a list. Flush/Blocks is what a stored list should hold; Flush/Chunk is about a chunk,
--     Flush/Round and Flush/Loop about the loop, Flush/Whole and Flush/Readback about a list,
--     Flush/Entries about the cache.
--   * Iterator: PListIterator.
--   * Indexer: Start, Index, Flush and End of IndexerImpl; the terms are in Indexer/Terms, what a
--     fingerprint should add to the cache in Indexer/Elements and Indexer/Added, the bytes of
--     fingerprints in Indexer/Fingerprints.
--   * Ring, AudioBlock: src/audio/RingBuffer.h and src/audio/AudioBlock.h.
--   * Classifier: src/ident/MatchFuzzyClassifier.cpp; Classifier/Settled is about long matches,
--     Classifier/Short about short ones.
--   * Results: the scores of candidates and the list of the best ones, of src/ident/Matcher.h.
--   * Matcher: Process, Flush, DoMatch and the setter of the data store; Matcher/Bins is the
--     histogram, Matcher/Candidates the two searches, Matcher/Graphs BuildGraphs and GraphMatching,
--     Matcher/Rerank the reranking. Matcher/Batches, Matcher/Flushing, Matcher/Ending and
--     Matcher/Sequence are about the query sequence and the histogram's growth.
--   * Recognizer: results and classification; Recognizer/Processing is ProcessMatchResults and
--     Recognizer/Calls the public methods. The recognizer takes the matcher as a record of
--     operations, with a law that Recognizer/Flushes states and Recognizer/Matching derives for
--     Matcher. Recognizer/Kept, Recognizer/Returning, Recognizer/Branches and Recognizer/Deadline
--     are about one step, Recognizer/Timeout about twenty seconds, Recognizer/Session and
--     Recognizer/Safety about sequences of calls.
--   * Quantizer: Codebook (src/quant/Codebook.cpp) and the Hamming distance of src/tools/Utils.h;
--     `codebook` is what the matcher takes of it.
--   * Driver: TCIndex of src/dbdrivers/TCDataStore.cpp, with its cache of blocks; the database is a
--     record of operations, HashDb, and Driver/Writes has the laws that are relied on.
--     Driver/DataStore is TCDataStore with the fingerprints, as a data store of the engine, and
--     Driver/Merge is Merge. Driver/View is the lists that an index stands for and Driver/Index
--     those of its database. Driver/Blocks and Driver/Append are about a chunk, Driver/Emits,
--     Driver/Emission, Driver/Lists and Driver/FlushList about the loops of DoFlush over the
--     driver, Driver/Headers about the headers that they read, Driver/Flushed and Driver/Reads
--     about a flush and the reading after it, Driver/Pointers, Driver/Merging, Driver/Merged and
--     Driver/ListOnly about a record that is merged, Driver/Merges and Driver/DeltaIndex about the
--     whole delta index. Store/Arrays is the data store that the driver is compared with.
--   * Tests: concrete runs.
--
-- Words keep their wrap-around (uint32_t, uint64_t); an int is its 32-bit pattern. The library is
-- built with NDEBUG (cmake/make_linux.cmake), so assertions are no code. Floating-point numbers are
-- a type with operations, of which only the order, the constants and the quotients of the
-- classifier and two conversions have laws. The loops of DeltaCodec and DoFlush have the length of
-- their array as fuel, since a round moves on by two words at least; that of Process the length of
-- the query sequence, since a batch has twenty. Flush of the recognizer has two rounds, since the
-- matcher has nothing left to flush in the second. The number of fingerprints that a search for
-- candidates may look at is a parameter, and that it is enough is open. The capacity that a vector
-- grows to is a parameter of the driver; of the pointers that Merge takes into a vector it is kept
-- whether the vector has moved since.
--
-- Not modelled: fingerprint extraction (an interface of the session and the recognizer), the
-- Couchbase driver, the opening and closing of files, metadata, audio sources and tools. An
-- exception ends a run, so what it leaves of a session, a query or in the store is not modelled;
-- the order of hash maps is the order of a list of entries. Fingerprints of a data store and the
-- time of a frame as a float are parameters of the matcher.
pub mod Prelude
pub mod Memory
pub mod Postings
pub mod Codec
pub mod Cache
pub mod Store
pub mod Flush
pub mod Ring
pub mod AudioBlock
pub mod Iterator
pub mod Indexer
pub mod Classifier
pub mod Results
pub mod Matcher
pub mod Recognizer
pub mod Driver
pub mod Quantizer
pub mod Tests
