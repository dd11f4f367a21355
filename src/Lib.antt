-- ===== src/Lib.antt =====
-- JACLibc: a model of the routines of the header-only C library that work on memory, strings,
-- search structures, patterns, characters and dates, and of its allocator, and the theorems about them.
--
-- Memory (Memory.antt) is a byte at each address, a pointer is an address and 0 is NULL. A routine
-- that writes takes the memory and returns the new one with its result. A loop that a count bounds is
-- recursion on the count; a loop that only a NUL ends takes fuel, `none` means that the fuel ran
-- out, and the theorems say that one round for each byte and one for the NUL are enough. Where the
-- code compares or widens plain `char`, a Boolean says whether the type is signed.
--
-- Mem.antt models memset to memccpy of include/string.h; Str.antt the str* and stp* routines that
-- measure, copy and compare, which call Mem; Scan.antt strchr to strtok_r, which call Str, and index and
-- rindex of include/strings.h. Mem/, Str/ and Scan/ hold their proofs.
-- Tree.antt models tfind, tsearch, tdelete and twalk of include/search.h over the caller's comparison
-- function, which is a parameter, Hash.antt hcreate, hdestroy and hsearch, and Linear.antt lfind and
-- lsearch. An allocation that may
-- fail is a Boolean argument. A tree is a value: each node has one parent, so a write through
-- a pointer to a link replaces that subtree.
-- Ctype.antt models include/ctype.h. Glob.antt models include/fnmatch.h on the bytes of the pattern
-- and of the text; its engine takes the pattern's length and one as fuel. Glob/Spec says
-- what a pattern means, as data types apart from the code, and Glob/Items and Glob/Brackets
-- that the code reads the items so.
-- Messages.antt models strerror, strerror_r, strsignal, strdup and strndup of include/string.h, which
-- call Str and Mem. Sort.antt models qsort and bsearch of include/stdlib.h on arrays of elements;
-- the recursion takes the number of elements as fuel, each loop of the partition one more.
-- Environ.antt models putenv, setenv and unsetenv of include/stdlib.h and getenv of
-- include/unistd.h on the list of the environment's strings. Fold.antt models the comparisons of
-- include/strings.h that take upper case for lower case, and Digits.antt
-- models a64l and l64a, and Random.antt rand and random, of include/stdlib.h.
-- Exit.antt models the handlers of atexit in include/core/stdlib.h, and Path.antt splitname, basename and
-- dirname of include/libgen.h.
--
-- Utf.antt models one character between UTF-8, UTF-16 and its code (include/wchar.h, include/uchar.h),
-- and Convert.antt the conversions of whole strings, which call Utf for each character; their loops take
-- a round for each byte and one more as fuel. Calendar.antt models mktime and gmtime of include/time.h;
-- the loop over the years takes as many rounds as there are days, and one more.
--
-- Route.antt and Route/Table.antt model the patterns and the table of routes of include/transit/route.h; a
-- handler is a parameter. Their loops take a round for each byte of the pattern, and one or two more. Http.antt
-- and Http/Feed.antt model the parser of requests of include/transit/http.h, with strtoul as a parameter: Http
-- is one line, and Http/Feed the buffer in which lines arrive, its loop counting the bytes that are left.
-- Ws.antt is how include/transit/ws.h builds and reads the head of a frame, and Ws/Serve.antt the server's answer
-- to one; both write to the memory of Memory.antt, by memcpy of Mem.antt and with the key of rand of Random.antt.
--
-- Wide.antt models the wide strings of include/wchar.h with the loops of Mem.antt and Str.antt where
-- the code has the same ones. Regex.antt models of include/core/match.h the characters of a subject
-- and the classes of a pattern, Regex/Matcher.antt matchfind with the primitives of Regex/Prims.antt
-- on the nodes and the context of Regex/Nodes.antt, and Regex/Matcher/Exec.antt matchexec with its
-- gate. matchfind takes fuel: 2001 is enough, since each visit of a node goes one deeper and the code
-- stops at 2000; the loop of a sequence takes the index of its node and one, the others a round for
-- each byte or each repetition. Regex/Matcher/Spec.antt says what a node of a pattern matches, as a
-- data type apart from the calls of the matcher, for the nodes but looks, references, conditions,
-- calls and word bounds. Regex/Basic.antt is the translation of basic patterns in include/regex.h, and
-- Regex/Api.antt its interfaces of POSIX, PCRE2 and RE2.
--
-- Alloc.antt, Heap.antt and Lock.antt model include/core/memory.h. Alloc is a segment: the headers at their
-- offsets, the bins of free blocks, taking, splitting and merging them. Heap is malloc, free, calloc and
-- realloc of one thread on a list of segments, the first of which is the static heap with the arena in
-- its first quarter; whether the system maps memory is a Boolean argument. The walk of a bin's list
-- takes fuel, since a list that is damaged may have no end. Alloc/ and Heap/ say what a valid segment
-- is and what is kept of it: Alloc/Safety for the search of a block, Heap/Valid for malloc and Heap/Freed
-- for free. Lock is the ticket lock, as steps of any number of threads; Lock/Line is the line in which
-- they stand, its abstract view.
-- Tests.antt and Tests/ run the routines on concrete inputs.
--
-- The hash of hsearch is an unsigned long of 64 bits. size_t arithmetic does not wrap, since an
-- object fits in the address space; the sums with the length that a frame of WebSocket claims do wrap,
-- and so do the ends of the ranges of a class, in 32 bits.
--
-- Not modelled: locales and collation, the system call layers, threads other than at the lock, streams and
-- formats, floating point, cryptography, the JavaScript bridge, the parser of regular
-- expressions, and of the network protocols what builds answers or reads and writes sockets; of the
-- allocator the bytes of a block, aligned_alloc and posix_memalign.
pub mod Base
pub mod Memory
pub mod Mem
pub mod Str
pub mod Scan
pub mod Tree
pub mod Hash
pub mod Ctype
pub mod Glob
pub mod Messages
pub mod Sort
pub mod Fold
pub mod Environ
pub mod Digits
pub mod Random
pub mod Utf
pub mod Calendar
pub mod Alloc
pub mod Heap
pub mod Tests
pub mod Lock
pub mod Path
pub mod Exit
pub mod Convert
pub mod Linear
pub mod Http
pub mod Route
pub mod Ws
pub mod Regex
pub mod Wide
