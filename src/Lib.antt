-- ===== src/Lib.antt =====
-- PrismaticOS: models of the kernel, of the C library and of the HTML and CSS parsers, with the
-- theorems that make them correct.
--
-- The program's parts. The kernel (kernel/) hands out physical pages and has a heap of its own
-- (mm.c), runs processes, which get signals, and their threads from a ready queue with recursive
-- mutexes (process.c), and keeps a tree of nodes with files in memory and a table of file
-- descriptors on which the file system calls work (fs.c); it prints on a text screen (console.c).
-- The C library (libc/) has the memory, string, character and number functions that the kernel's
-- file system also calls: vfs_find_child compares names with strcmp, and fs_lookup cuts a path with
-- strtok, and fs_create splits it with strrchr. The HTML library (html/) cuts a text into tokens and
-- builds a document tree from them (html_parser.c, dom.c); it compares attribute names with strcmp
-- and cuts class names with strtok.
--
-- Files and sources:
--   Base           numbers, lists, options, Boolean tests and their lemmas; Int has the integers, Linked
--                  and LinkedEdit doubly linked lists, as the ready queue and the children of a node
--   Libc/Mem       libc/src/string/memcpy.c
--   Libc/Str       libc/src/string/strlen.c: comparison, search, spans, strnlen
--   Libc/StrCopy   libc/src/string/strlen.c: strcpy, strncpy, strcat, strncat
--   Libc/Strtok    libc/src/string/strlen.c: strtok_r
--   Libc/Ctype     libc/include/ctype.h, libc/src/ctype/ctype.c
--   Libc/Strtol    libc/src/stdlib/atoi.c
--   Libc/Stdlib    libc/src/stdlib/stdlib.c: random numbers, exit handlers
--   Libc/Printf    libc/src/stdio/printf.c: Convert (the format), Format (vprintf_internal, sprintf and
--                  snprintf)
--   Libc/Arith     libc/src/stdlib/stdlib.c: absolute values, divisions, environment
--   Kernel/Frames  kernel/mm.c: the page bitmap
--   Kernel/Heap    kernel/mm.c: kmalloc, kfree, krealloc
--   Kernel/Thread  kernel/process.c: threads and scheduler
--   Kernel/Mutex   kernel/process.c: mutexes
--   Kernel/Process kernel/process.c: processes and signals
--   Kernel/Console kernel/console.c: the text screen, the cursor, and formatted output
--   Kernel/Fs      kernel/fs.c: Node (the VFS nodes), File (memfs), Path (lookup and creation), Mount
--                  (registration and mounting), Descriptor (fd_table), Syscall (the system calls)
--   Html/Token     html/src/html/html_parser.c: the tokenizer
--   Html/Dom       html/src/dom/dom.c: the nodes of the document tree; Events has the listeners, Search
--                  the search by identifier
--   Html/Build     html/src/html/html_parser.c: the tree that the tokens build
--   Html/Parse     html/src/html/html_parser.c: html_parser_parse
--   Html/Css       html/src/css/css_parser.c: Token (the tokenizer), Rule (rules and selectors), Parse (the
--                  parser), Value (colours and lengths); Machine is what the parser is compared with,
--                  and Print writes stylesheets
-- A definition carries the name of the C function that it models; the loops of a function are
-- definitions of their own in front of it, and the modules below a file hold its proofs.
--
-- State. Each component's static variables are the fields of a record, and a function takes the
-- record and returns the new one with the C result. Memory is a function from addresses to bytes.
-- Threads, VFS nodes and DOM nodes live at addresses in an explicit store, so that links may be
-- aliased as in C; an address is never reused by the model itself, what kmalloc returns there is an
-- argument. A string that is only read is the list of its bytes in front of the NUL, and a pointer
-- into it is a suffix. The data model is LP64 with a signed char and little-endian words: `unsigned
-- long` and `size_t` have 64 bits, `ssize_t` in the kernel is an int32_t, and wrap-around is
-- written out. The memory of the text screen goes on behind its cells, so that a write outside of the
-- screen would show. What %n stores goes to memory between the bytes of the text. The handlers of
-- signals are code of the program that runs, and a parameter: a function on the whole state. The CSS
-- parser counts open braces in an int, and the model without a bound: it stands for the code on texts
-- with fewer than 2^31 of them open.
--
-- Fuel. The walks over the process list, over the children of a node and over the threads that wait
-- for a mutex take fuel, since a C list may be cyclic; fuel above the length of a list is enough.
-- The theorems about the scheduler hold for every fuel. Handling signals takes one more than the 32
-- bits. Waiting for a child takes fuel for the children walked and for the rounds of sleep, which
-- end only when the child exits. The loop over a format of printf takes its length. The other loops
-- are structural: they run over the bytes left, the pages left or the text left. The tokens of a
-- text take fuel above its length, and so do the attributes of a tag and the loops of the CSS
-- parser. The walk of an end tag takes two more than the number of tokens before it.
--
-- Not modelled: page tables and regions, context switches and address spaces (a switch is recorded
-- in a list), interrupts, ports and assembly, the table of system calls, strlen's word loop, strstr,
-- the streams of stdio, malloc, destroying nodes of the document tree and of style sheets, and the
-- graphics code. strcasecmp, strncasecmp, strtod, css_parse_number_or_ident, css_declaration_create
-- and html_document_create are called and not in the repository: the document is given, and the
-- others are parameters.
pub mod Base
pub mod Html
pub mod Kernel
pub mod Libc
