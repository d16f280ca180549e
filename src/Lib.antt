-- ===== src/Lib.antt =====
-- The data structures in C of this repository: the binary search tree of bst.c, the red-black tree of
-- rbtree.c and the hash table of hashtable.c. The three are independent programs, each of which
-- has its structure, and an interactive `main` around it.
--
-- Shared parts. Prelude passes on the names of the libraries and has the lists, options and numbers
-- that the rest shares. Store is the memory of both tree programs: a node is an address with its
-- fields `parent`, `left`, `right` and a rest, the colour in rbtree.c and nothing in bst.c. A read or
-- write through NULL, or to an address that holds no node, is a fault and a value of the model, and
-- so is running out of fuel. Tree has the trees that pointers stand for. A tree with a hole is the
-- way down from the root to a subtree; `IsAt s h t` says that the store `s` holds the subtree `t` in
-- the hole `h`, every node at its own address and with its parent pointer. Order is what the trees
-- need of the comparison, and the reference operations on the nodes in order, `insort` and `erase`.
--
-- Numbers has the field `val` of `struct num`, how often a tree holds a number, and what putting a node in or taking one out changes. Console is standard input: what
-- `getline` answers, `feof` after it, and the text of a line; `strtol` and `strtoul` are arguments, which give a number, `errno`
-- and the text from `endptr` on. Arguments is `parse_args` of rbtree.c.
--
-- Bst is bst.c. `insert`, `find`, `shift`, `delete`, `preorder`, `height` and `num_cmp` are
-- `bst_insert`, `bst_find`, `bst_shift`, `bst_delete`, `bst_preorder`, `bst_height` and `numcmp`;
-- `link`, `detach` and `replace` are runs of statements of them, the names on `_loop` their
-- loops. The comparison that the source passes on as a function pointer is an argument. A tree of
-- `size t` nodes needs more than `size t` rounds of fuel, whatever it looks like.
--
-- Bst/Main is `main` of bst.c after its arguments: `add_loop` and `remove_loop` are the two prompts, `add` and `remove` what they do
-- with a number. It goes from a list of answers of `getline` to the exit status, and `calloc` is a function of the memory. Each
-- answer is read once, and the tree needs more fuel than there are answers, since each puts in at most one node. Bst/Dot is
-- `gen_dot` and `print_dot`, which add lines to the output in the store.
--
-- Rb is rbtree.c, with its functions in the same way: Rb/Defs has `rb_init`, the rotations,
-- `rb_replace`, `rb_find`, `rb_preorder` and `rb_height`, Rb/Insert has `rb_insert`, Rb/Delete has
-- `rb_delete`. Code that the source writes twice with left and right exchanged is one definition
-- over a side, and the address of the sentinel is an argument. Rb/Replace has the store that
-- `rb_replace` leaves behind, Rb/Sides the two sides of a node, Rb/Rotate the rotations. Rb/Steps and
-- Rb/Below say of both sides at once how a hole and its subtree share a node, Rb/Change what a run of
-- statements may change in a subtree, Rb/Colours which trees with a hole keep the rules on colours,
-- Rb/State the state of a whole red-black tree, Rb/Bounds its height. The modules under Rb/Insert follow
-- `rb_insert`: the walk down, the link, one round of the repair loop (Repair, Round), the loop, the whole
-- function, and `rb_find` after it. The loops need more fuel than the tree has nodes. Those under Rb/Delete
-- follow `rb_delete` from its end to its start: the round of its loop at a black sibling (Close, Round,
-- Black), at any sibling (Sibling), the loop and the write after it (Loop), and before the loop the three ways
-- to take a node out (Seat, Single, Take, Part, Unlink, with what they leave behind in Unlinked); Whole has the
-- function. What the loop keeps between
-- two rounds is that a tree in a hole is short of one black node, and that the parent of its pointer, which may be
-- the sentinel, is the node above the hole.
--
-- Rb/Session is the work of the loop of `main` of rbtree.c: a command with the number that was
-- read (`command`), the numbers in the nodes (`Values`) and what `calloc` answers, which is an argument. The states that
-- `main` reaches by commands are the relation `Reaches`, `IsSession` says what a state holds, and the numbers are a bag, a
-- function from numbers to how often they are held. The loops need more fuel than there were commands.
-- Rb/Session/Memory has what `calloc` and `free` change, and the memory that a tree owns.
--
-- Bst/Compare has `num_cmp` against the order of the integers.
--
-- Bst/Arguments is the head of `main` of bst.c, whose statements are those of `parse_args`, with the sizes as `int`; Bst/Statistics is
-- `test` for one tree, as Rb/Statistics below.
--
-- Rb/Main has the loop with its input, `read_long` and the end of `main`, in the same way as Bst/Main: an answer of `getline` is
-- read once, so that the loop and the tree need more fuel than there are answers. Rb/Dot is `gen_dot` and `print_dot`. Rb/Statistics is
-- `test` for one tree: the numbers of `random` and the addresses of the nodes in the array are arguments.
--
-- Hash is hashtable.c. A bucket is the list of its objects. The hash and the comparison are arguments, as in
-- the table's struct, and what the table relies on of them is `IsKeyed`, which `num_hash` and
-- `num_cmp` (`numhash`, `numcmp`) have. Whether `calloc` has memory is an argument too. `init`,
-- `set`, `get`, `del`, `grow`, `iterate` and `free` are the functions `hashtable_*`, the last two in
-- Hash/Iterate, where what a callback or `free` changes is a state of any type. Hash/Strings has `strhash` and
-- `_strcmp` (`str_hash`, `str_cmp`), where a string is the list of its bytes and `strcmp` an argument. Hash/Lookup
-- puts `set` and `get` together. A remainder by zero, an index out of
-- the array or beyond `int` is a fault. `size_t` has 64 bits and `unsigned` 32. The table's view is the
-- map from keys to data that all its objects together stand for; the invariant `IsValid` has every
-- object in its bucket, no key twice, the keys counted, and at most 2^31 buckets, since the
-- source counts buckets with `int`. `del` is as the source has it: it looks for its own argument, the address
-- of a variable, in the chain of the key that the variable holds.
--
-- Hash/Tally has `strtest`, `numtest` and the counting of `print_stats`. The words that `fread` and the regular expression find are an
-- argument, a word with its address and with what `strdup` and `calloc` answer; an address stands for one string throughout, so a
-- place in the buffer that is read again is another address.
--
-- Hash/Arguments is the loop of `main` of hashtable.c over its arguments, with `parse_ulong_arg`. Hash/Main is `main` after them, from the
-- answers of `getline` to the exit status: `prompts` is the loop, `put` what it does with a key and its value, and the addresses
-- that hold a string are part of the state, so that a string that is read or freed twice is a fault. Hash/Main/Round is about one
-- round of it, and Hash/Main/Ending about the end of the input at a value.
--
-- Not modelled: prompts and messages, and the child process that `print_dot` may pipe its output to; the averages in floating point,
-- the median and the repetition of `test`; the Rust, Python and Lua programs, which are separate. The
-- buffers of `getline` in the two tree programs are no memory of the model, whose addresses hold nodes: bst.c never frees its own.
-- The height of a tree is unbounded here, since memory bounds it below the range of `int`; the counters of `test`, which add up heights,
-- are `int`s that overflow with a fault, and less than 2^16 nodes keep them in range.
pub mod Prelude
pub mod Store
pub mod Tree
pub mod Order
pub mod Numbers
pub mod Console
pub mod Arguments
pub mod Bst
pub mod Rb
pub mod Hash
pub mod Tests
