-- ===== src/Lib.antt =====
-- Cibyl, which translates C programs to Java byte code: its C library, and the core of its
-- translator.
--
-- A program that Cibyl translates runs on a big-endian 32-bit machine whose memory is an array of
-- the Java machine. The library below it is compiled with it: an allocator for that memory, the
-- functions of string.h, ctype.h, stdlib.h and time.h, streams over several file systems, and s9, a
-- dictionary for words that are typed on the keys of a telephone. The dictionary takes its memory
-- from the allocator and folds letters with the functions of ctype.h; realloc and strdup use the
-- allocator and the functions of string.h together. The game of tafl is one of the programs that
-- use it. The translator decodes the machine code, divides each function into blocks, gives the
-- registers of a method to local variables and writes code for each instruction.
--
-- - Smalloc: libs/src/libc/smalloc.c. Node, Chain and Heap are `node`, one of the two
--   address-ordered lists with its counter, and the static variables. delete, insert_available,
--   link, find, bestfit, malloc, free and set_memory_pool are delete, insert, find, bestfit,
--   _malloc, _free and smalloc_set_memory_pool. Smalloc/Nodes and Smalloc/Edits hold facts on the
--   lists, Smalloc/Insert is about insertion and coalescing, Smalloc/Fit about the choice of a
--   block, Smalloc/Tiling says that the blocks tile the pool, Smalloc/Members what the lists hold
--   after an edit, Smalloc/Touching and Smalloc/Coalesce are about free blocks that touch,
--   Smalloc/Carve, Smalloc/Alloc and Smalloc/Free about the two operations, Smalloc/Scripts about
--   sequences of calls, and Smalloc/Recovery about what a program gets back.
-- - Memory and Strings: libs/src/libc/string.c. Each function has the name that it has in C, its
--   loops being functions of their own (fill_bytes, copy_back, strspn_loop, break_loop and so on).
--   Strings/Fill, Copy, Scan, Span and Tokens are about memset, the copies, the searches for a NUL
--   or a character, the searches with a set of characters, and strtok_r.
-- - Payload: realloc of smalloc.c and strdup of string.c, which need both the heap and the bytes;
--   Payload/Moves is about them.
-- - Ctype: syscalls/ansi/include/ctype.h and tolower, toupper and strncasecmp of
--   libs/src/libc/ansi.c. Ctype/Case is about characters, Ctype/Caseless about strncasecmp.
-- - S9: libs/src/libs9/s9.c and include/s9.h, every function under its name. S9/Words is about the
--   search for a word, S9/Keys about the numbers that stand for sequences of keys, S9/Dictionary
--   and S9/Refinement about adding words, S9/Lookup about s9_lookup, and S9/Iteration about the
--   array that s9_lookup_next walks.
-- - Stdlib: libs/src/libc/stdlib.c: strtoll, in the steps skip_space, take_sign, take_prefix,
--   digits_loop and finish, and the functions that call it. Stdlib/Numerals is about its loop,
--   Stdlib/Convert and Stdlib/Bases about the whole.
-- - Time: libs/src/libc/time.c: _mktime, timegm, __offtime, gmtime and localtime_r, whose time
--   zone, a Java object, is two arguments; each loop of __offtime is a function (raise_rem,
--   lower_rem, year_loop, month_loop). Time/Calendar says what a date is, and is about the seconds
--   of a day, Time/Years and Time/Months are about the loops over years and months, Time/Broken
--   about __offtime, and Time/Seconds about timegm.
-- - Tafl: examples/j2me/tafl-client/src/playfield.c and dir.c, the board and the test of a move
--   (playfield_can_move_xy), on coordinates that are not negative; Tafl/Field is about the field,
--   Tafl/Rook about the way of a piece.
-- - Files: libs/src/libcrt0/fileops.c, the functions that read, write and seek under their names,
--   over the operations of a file system (Fops is cibyl_fops_t), and
--   libs/src/libcrt0/memory-filesystem.c, read, write and seek of files in memory. realloc is an
--   argument there with its contract, which Payload is about. Files/Contents is about one
--   operation, Files/Streams about their sequence.
-- - FileSystems: the table of file systems of libs/src/libcrt0/fileops.c and fopen;
--   FileSystems/Choice says which file system a path is opened with.
-- - Translator: tools/translator, from MIPS machine code to the assembler of the Java machine.
--   Translator/Mips, Opcodes and Decode are mips.hh, mips.cc with its tables, and
--   InstructionFactory::create of instruction.cc; Instructions is the second pass (pass2) of the
--   classes of instructions/ifmt.cc, rfmt.cc, set.cc and of Mult, Div, Mfxx and Mtxx in muldiv.cc,
--   Memory that of memory.cc, each function named for its class; Emit is emit.cc; Registers is
--   registerallocator.cc; Usage counts the registers of a method, as fillDestinations and
--   fillSources of instructions/, basicblock.cc, function.cc and javamethod.cc. Two modules are
--   specifications and not code of the repository: Jvm is the Java machine for the instructions
--   that the translator writes, with the limit of the stack that a method declares, and Assembly
--   the encodings of MIPS. Instructions/Semantics is what the instructions compute. Run and Writes
--   say what the pieces of code do to the machine, Instructions/Formats, Special, Increment,
--   Compare, Multiply and Divide what each class does, Instructions/Results those of one
--   destination together; Memory/Index, Access, Loads, Stores, Parts and Bytes are about loads and
--   stores, Assembly/Values gives what the instructions
--   write, Assembly/Decoding and Translated are about the way from a word to its effect,
--   Registers/Assign and Allocate about the allocator, Usage/Counted and Sources about the
--   registers that a method counts, and Usage/Methods about a method whose registers are allocated
--   from its counts. Jumps is the jumps of jfmt.cc with the
--   instruction in their delay slot: Jumps/Taken runs their code, Jumps/Slots says where they go,
--   and Jumps/Overflow is about the places of the stack that they need; Frame is the Java machine
--   with more on its stack. Blocks is the division of a function in function.cc. Calls is
--   javamethod.cc: the functions of a method and the registers that it is passed and that it
--   initialises; Calls/Passing, Agreement, Initialised and Lookup are about them, and
--   Registers/Arguments about the local variables of the arguments. CallTable is the functions of
--   calltablemethod.cc and the labels of codeblock.cc.
-- - Base: lists, Option as a monad, integers and the bit operations over the native numbers.
--
-- Numbers of the machine are natural numbers with the wrap of `size_t` written out where the code
-- computes with sizes. A dereference of NULL is `none` in the allocator. A loop that runs up to a
-- NUL takes fuel, one unit for each round, and `none` says that it ran out; the theorems on these
-- functions ask for no more rounds than the loop can take (for strspn, whose loop walks the set
-- again for each character, a product of the two lengths), and show that this suffices. The walk
-- over the board is given a round for each square of the way and one more, which is enough as well.
-- The loop of the register allocator is given a round for each register and one more: each round
-- clears the count of a register. The loops that bring the seconds into a day are given a round for
-- each day that they can move and two more, the loop over years three, which are enough for every
-- day that 32 bits of seconds reach, and the loop over the registers to pass one for each place of
-- its table. Every other loop is a recursion on its counter or on the list that it walks.
--
-- Not modelled: system calls and the file systems over them, which are Java; of fileops.c
-- directories and the functions on characters, of memory-filesystem.c opening and closing; cibar.c,
-- vsnprintf.c, printf.c and scanf_ska.c; floating point; of the translator calls, the code around
-- the instructions of a method, the tables of basicblock.cc, the reading of the program and the
-- printing of the assembler's text, and the tools in Python and the copy of elfutils. Of smalloc.c
-- firstfit, which no call selects, and the output under EMIT are left out; of string.c and ansi.c
-- the functions that only hand their arguments to a system call. The dictionary does not run out of
-- memory: the program exits if it does. Of the game of tafl the captures, the text form of a board,
-- the computer player and the drawing are left out.
pub mod Base
pub mod Memory
pub mod Smalloc
pub mod Payload
pub mod Strings
pub mod Ctype
pub mod S9
pub mod Stdlib
pub mod Tafl
pub mod Time
pub mod Files
pub mod FileSystems
pub mod Translator
