-- ===== src/Lib.antt =====
-- The data structures and algorithms in C of the repository, under
-- Programming/Data_Structure_and_Algorithms, with functions of Programming/C_CPP/Pointers_On_C and
-- the controllers of Embedded_Systems/PID, and what makes them correct.
--
-- The programs are independent of each other: each file has its own functions and a `main` that
-- calls them, which is modelled in Exercises and in Number/Sieve only. What they share is C:
-- arrays, integers, loops, and pointers.
--   Base         helpers. Base/Outcome has the outcome of a run: a value, a fault, which is
--                undefined behaviour, or the end of the fuel. Base/Array has arrays with their
--                bounds checks, Base/Loop the counted loops, Base/Int the signed integers.
--   Sort         Algorithm/Sort: a module for each of BubbleSort.c, InsertionSort.c,
--                SelectionSort.c, QuickSort.c and ShellSort.c. Sort/Swap is the `Swap` of three of
--                them, Sort/Spec what a sort promises.
--   Tree/Search  Data_Structure/Tree/BinarySearchTree.c
--   Tree/Balanced  Data_Structure/Tree/BinaryBalanceTree.c
--   Tree/Expression  Data_Structure/Tree/BinaryExpressionTree.c
--   Tree/Plain   Data_Structure/Tree/BinaryTree.c
--   Hash         Data_Structure/Hash: Hash/Open is OpenAddressing.c, and Hash/Chained is
--                SeparateChaining.c, whose buckets are lists as those of Linked/Single
--   DynamicArray  Data_Structure/Array/DynamicArray.c
--   Graph/Breadth  Data_Structure/Graph/BreadthFirstSearch.c, on the queue of Queue/Bounded
--   Stack        Data_Structure/Stack: Stack/Array is ArrayStack.c, Stack/Bounded ArrayStack2.c
--   Queue        Data_Structure/Queue: Queue/Array is ArrayQuene.c, Queue/Bounded ArrayQuene2.c
--   Linked       Linked/Memory has nodes at addresses and the commands on them, and Linked/Store
--                those of the lists with one link. Linked/Single is
--                Data_Structure/Linked_list/Single Linked List/Single_linked_list.c, Linked/Double
--                Data_Structure/Linked_list/Double Linked List/Double_linked_list.c,
--                Linked/Stack Data_Structure/Stack/LinkedListStack.c, and Linked/Queue
--                Data_Structure/Queue/LinkedListQuene.c; Linked/Walk has loops of the last two.
--   PriorityQueue  Data_Structure/Priority_Queue/Heap.c
--   Search       Algorithm/Search/BinarySearch.c
--   Subsequence  Algorithm/Subsequence: Best.c, Exhaustive.c and, in Subsequence/Divided,
--                Divide_and_conquer.c, whose sums are checked for overflow
--   Number       Algorithm/Number Theory: Number/Gcd is Gcd.c, Number/Power is BinPow.c;
--                Number/Trial is the trial divisions of Algorithm/Prime, "Ordinary
--                _sieve_method.c"; Number/Sieve is the two other files there and Question4_5_6.c of
--                Pointers_On_C; Number/Prime says what an array of prime numbers is
--   Functions    Programming/C_CPP/Pointers_On_C/Chapter Seven Functions/example.c
--   Text         Programming/C_CPP/Pointers_On_C/Chapter Six Pointers/Program Exercise 6.18:
--                `find_char` of Question1.c, `match` and `del_substr` of Question2.c, `my_strlen`
--                and `reverse_string` of Question3.c; and in Text/Copy `strcpy` of Chapter Eight
--                Array/strcpy.c and `substr` of Chapter Four Statement/Programming Exercises
--                4.14/Question_6.c
--   Rearrange    Programming/C_CPP/Pointers_On_C/Chapter One Getting Started Quickly/rearrang.c
--   Exercises    exercises of Pointers_On_C: Exercises/Identity is Question3.c and
--                Exercises/Matrix Question5.c of Chapter Eight Array, Exercises/Copy
--                Question_4.c and Question_7.c of Chapter Four Statement, Exercises/Lines
--                Question_2.c of Chapter One Getting Started Quickly, Exercises/Repeated
--                Question_5.c of Chapter Four Statement, and Exercises/Numbers Question_2.c and
--                Question_3.c of Chapter Four Statement and of Chapter Five Operators And
--                Experssions, and Question2.c of Chapter Seven Functions; Exercises/Strings is
--                Chapter Six Pointers/s_srch.c
--   Pid          Embedded_Systems/PID: pid_increment.c and pid_position.c
--   Tests        the main theorems at concrete inputs
--
-- How the code is modelled:
--   * A function of C is a function of the same name in snake case, and a loop is a function of
--     its own where the counted loop of Base/Loop does not serve. A local variable that a loop
--     changes is an argument or a result.
--   * An `int` that the code only compares is an integer, and one that counts or indexes is a
--     number: none of them leaves the range of `int`, whose bound no array reaches. Where the
--     program lets an index be -1, the model shifts it by one (`stop` and `next` in Sort/Quick,
--     `stop` in Search and in Subsequence/Divided, the place in Sort/Insertion) or has an integer
--     (Stack/Bounded, Queue, DynamicArray, PriorityQueue).
--   * A pointer to a tree node is the tree below it, which is faithful because no two pointers
--     lead to the same node. Lists have a heap instead, where the code changes links. The stack of
--     trees in BinaryExpressionTree.c and the queue of nodes in BinaryTree.c, which are local to
--     one function, are the lists of what they hold.
--   * `malloc` and `free` are not under the repository: the address that `malloc` returns is an
--     argument, and so is what the memory holds before it is written.
--   * A pointer into an array or a string is an index, and none for a null pointer. `strcmp` of the C
--     library is a parameter of `find_entry`: whether it finds no difference to each entry.
--   * `realloc` keeps the cells that there were, and what it leaves in the others is an argument.
--     The capacity that DynamicArray.c doubles, and the sum of index and offset in
--     OpenAddressing.c, are taken not to overflow.
--   * The type `float` of the controllers, its operations and constants are a parameter. The
--     arrays of `matrix_multiply` do not overlap. Its sums and products, and those of BinPow.c and
--     of Subsequence, are a fault where they overflow; the sums of `triangle` are taken not to.
--   * What a program reads from the standard input is a list. A line that is too long for the
--     array that `gets` gets is a fault. `strcmp` of the C library is a parameter of
--     `repeated_lines` that gives 0 for equal lines and only for these, and so are `strlen` and
--     `strncpy` of `rearrange`; Rearrange/Spec says what is supposed of them.
--   * Messages are left out; functions that print return the list of what they print.
--
-- Fuel: `quick_sort` has the depth of its recursion, for which more than the length of the range
-- is enough, and `gcd` more than its second argument; `shell_sort` and `binary_search` give their
-- loops one round more than there are cells; the loops on lists need more rounds than the list has
-- nodes. `level_order` needs as many rounds as the tree has nodes, `bfs` one more than there are
-- nodes, `insert` of PriorityQueue two more than there are elements and `delete_min` one less, and
-- `rearrange` one more than there are columns; `max_sub_sum` recurs at most as deep as the range
-- is long, `binary_to_ascii` as there are numbers up to the value, and `bin_pow` at most one
-- deeper than the distance of the exponent from 0. The loops of Exercises/Strings have one round
-- more than there are strings, or than a string has characters. The theorems show that this is
-- enough. The probing of OpenAddressing.c and the loop of `Insert` in Heap.c can run for ever, and
-- so can the recursion of Divide_and_conquer.c on no cells.
--
-- Not modelled: FlexibleArray.c of Data_Structure_and_Algorithms; `Ordinary_sieve_method3` and
-- `easy_prime`, whose bound is a floating point root; `SortDA` of DynamicArray.c, which is a call
-- of `qsort` with `strcmp`; the loop of rearrang.c that drops the rest of a line; the other
-- exercises under C_CPP, and in example.c the averages (floating point) and `factorial1`, which
-- calls a function that is missing; and the copies of Linux and Android sources.
pub mod Base
pub mod DynamicArray
pub mod Exercises
pub mod Functions
pub mod Graph
pub mod Hash
pub mod Linked
pub mod Number
pub mod Pid
pub mod PriorityQueue
pub mod Queue
pub mod Rearrange
pub mod Search
pub mod Sort
pub mod Stack
pub mod Subsequence
pub mod Text
pub mod Tree
pub mod Tests
