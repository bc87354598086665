-- ===== src/Lib.antt =====
-- bgp-api answers questions about IP addresses and AS numbers from registry data. A command parses the
-- registries' files, another one builds a bbolt store from their rows, and the server answers requests
-- from that store, with a cache of serialized responses in front. This library models the store's format
-- (internal/boltstore), the lookups over it (internal/api), the caches of the server
-- (internal/api/compact_cache.go) and their plan (cmd/bgp-api/cache_strategy.go), and the decimal keys of
-- addresses (internal/ipkey).
--
-- How the parts work together: the builder reads a range from a row (Boltstore.Build), splits it into
-- prefixes (Boltstore.Ranges), writes the record under its ID (Boltstore.Record) and the ID under the keys
-- of the prefixes and of the range (Boltstore.Keys), collects range summaries (Boltstore.Summaries), and
-- fills one trie for the routes (Boltstore.RouteLpm) and one for each kind of record that a lookup selects
-- (Boltstore.Selection). A request is checked (Api.Requests), answered from the cache or by a lookup
-- (Api.Handlers), and the lookup finds an address in the bytes of these tries (Api.Lookup), or reads the
-- keys of an index with a cursor (Api.Matching, Api.Range), and decodes the records (Api.Records) into the
-- objects of a response (Api.Objects).
--
-- Files and the code they model, paths from the repository's root:
--   Base                    shared names, Boolean tests, lists over native numbers, byte strings
--   Golang.Binary           encoding/binary: big-endian words, uvarints
--   Golang.BigInt           math/big, as far as ranges need it
--   Golang.ByteSlice        bytes.Compare, bytes.Equal, copy into a slice, the number that bytes spell
--   Golang.Int64            int64 as a word of 64 bits in two's complement
--   Golang.Netip            net/netip: Addr, Unmap, Prefix, Masked
--   Golang.Text             strings and strconv on ASCII text
--   Golang.Decimal          strconv and math/big: a number in decimal
--   Api.Bucket              bbolt's read-only buckets and cursors, with the contract that Bucket.Contents states
--   Api.Reply, Api.Records  internal/api/bbolt.go: errors, allocationByID to geofeedByID
--   Api.Text, Api.Types     internal/api/api.go and resources.go: nullable texts, the responses
--   Api.Objects             internal/api/bbolt.go: records as details and objects, pages, descriptors
--   Api.Origins             internal/api/bbolt.go: bboltASNs, bboltOriginIdentities
--   Api.Narrowest           internal/api/bbolt.go: narrowestAllocation to subtractAddress
--   Api.Selectors           internal/api/bbolt.go: the copy of the compact selectors
--   Api.Lookup              internal/api/bbolt.go: Lookup, lookupCompact, lookupFull, the response
--   Api.Matching            internal/api/bbolt.go: matchingIPIDs, overlapIDs
--   Api.Range               internal/api/bbolt.go: directRangeEntries (Range.Direct), the cursors
--                           (Range.Cursor) and rangePageEntries (Range.Page)
--   Api.Resources, Api.Asn  internal/api/bbolt.go: LookupPrefix, LookupRange, LookupASN
--   Api.RangeSummaries      internal/api/bbolt.go: LookupRangeSummary, rankFacets
--   Api.Warmup              internal/api/bbolt.go: WarmDataset as steps, the overlap slots
--   Api.Requests            internal/api/api.go: requestPage to lookupOptions
--   Api.Handlers            internal/api/api.go: lookupIP, lookupPrefix, lookupRange, lookupASN
--   Ipkey                   internal/ipkey/ipkey.go: every function
--   Boltstore.Encoder       internal/boltstore/store.go: type encoder
--   Boltstore.Decoder       internal/boltstore/store.go: type decoder
--   Boltstore.Record        internal/boltstore/store.go: Encode and Decode of Allocation, Route, Geofeed and
--                           Autnum; Record.Lookup has the decoders that read a part
--   Boltstore.Summary       internal/boltstore/store.go: EncodeSummary, DecodeSummary
--   Boltstore.Keys          internal/boltstore/store.go: Address, the key functions, EncodeIDs, DecodeIDs;
--                           internal/boltstore/build.go: prefixFromRouteIndexKey
--   Boltstore.Build         internal/boltstore/build.go: nextRecordID, at, parseASN, parseRange, prefixRange
--   Boltstore.Ranges        internal/boltstore/build.go: rangePrefixes
--   Boltstore.Summaries     internal/boltstore/build.go: collectSummary to writeMaterializedSummary
--   Boltstore.Lpm           internal/boltstore/route_lpm.go: the functions on single bits
--   Boltstore.Trie          internal/boltstore/route_lpm.go and selection_lpm.go: insert and appendNode
--   Boltstore.RouteLpm      internal/boltstore/route_lpm.go: Insert, Encode, LookupRouteLPM
--   Boltstore.Selection     internal/boltstore/selection_lpm.go: everything but the recursive insert
--   Server.CachePlan        cmd/bgp-api/cache_strategy.go: resolveCachePlan
--   Rir                     cmd/parse-rir/main.go: the lines, attributes and blocks of an RPSL file
--   Server.CacheWarmer      cmd/bgp-api/main.go: type runtimeCacheWarmer, its begin, finish and Warm
--   Server.ResponseCache    internal/api/compact_cache.go: type responseCache
--
-- Representation: bytes and words are natural numbers, reduced where Go converts or adds; a string is its
-- bytes; an Address is its sixteen bytes, IPv4 in the last four. A struct is a record, an array of nodes a
-- list, a map from keys a function or a list of entries. State is passed explicitly: an operation takes the
-- state and gives the new one. Errors are constructors of Decoder.Result and Trie.Outcome, a run-time panic
-- is one of its own. strings.TrimSpace, ToUpper and ToLower are modelled on ASCII text.
--
-- Third-party and library code that the lookups take as arguments: a bucket is what Get, Seek and Next
-- give, and theorems on cursors suppose that the bucket holds a list of keys in the order of their bytes;
-- the texts of net/netip, base64 and the JSON encoding are functions. A context is what it answers each
-- time it is asked.
--
-- Bounds and fuel: rangePrefixes gets one round for each address of the range, and each round takes one
-- address at least; a block is halved at most 129 times. The insertion into a trie gets 130 rounds, above
-- the 128 bits of an address, and gives `stuck` where they would not do. The lookups in the bytes of a trie
-- take the number of rounds as an argument, since the bytes may come from anywhere; in the bytes of a trie
-- whose references lead to longer prefixes each round takes one bit at least. The loop that evicts
-- from a shard of the cache gets as many rounds as the shard has entries. A loop over a cursor takes its
-- rounds as an argument and gives `stuck` where they would not do; one more than the bucket has keys are
-- enough, since each round reads one key. A numbered page of an AS number counts its rounds from its bounds.
--
-- Not modelled: opening the store (NewBboltRepository), HTTP headers, routing and the health handler
-- (internal/api/api.go), what the parser of the registries' files makes of a block (cmd/parse-rir), the
-- transactions, CSV files and statistics of the builder, the other commands, the shell scripts. The
-- messages of errors and the tags of JSON fields are left out. In Server.ResponseCache the operations are
-- atomic steps in some order; goroutines that wait in Acquire are seen only as the answer that tells them
-- to wait. A flight is named by a number, which its release takes, and a second release of the same flight
-- panics, as a second close of its channel does.
pub mod Api
pub mod Base
pub mod Boltstore
pub mod Golang
pub mod Ipkey
pub mod Rir
pub mod Server
