-- ===== src/Lib.antt =====
-- joe-cli: a framework for command lines in Go. This library models how the words of a command line
-- become the values of flags and args.
--
-- The parts, and the files that model them (paths from the repository's root):
--   * Common: natural numbers, lists, texts, maps and options as the models share them. A text is the
--     list of its bytes; where the source ranges over runes the models range over bytes, so they speak
--     of ASCII words.
--   * Support: internal/support/support.go. Support.Unquote has unescapeAndUnquote and splitKeyValue
--     (with strconv.Unquote), Support.Fields has splitFields and SplitList, Support.Maps has
--     splitMapRegions and ParseMap. Support.Regions and below has the theorems.
--   * Errors: error.go's ParseError with the constructors that the parser calls, and set.go's
--     argCountError. An error is a value of the type Error; its text is not modelled.
--   * Counters: every ArgCounter: arg.go, valuePairCounter of value.go, counter of
--     extensions/exec/arglist.go. `take` gives the counter behind the call instead of changing it.
--     `custom` is a client's counter: any two functions over a state that a number stands for.
--   * Binding: set.go's Binding and bindingImpl, with NewBinding and actualArgCounter of flag.go and
--     arg.go. A lookup gives a fresh counter; a counter value that a client shares between occurrences
--     (the NArg of an Arg can be such a pointer) is not modelled. ArgCount panics on an NArg of another
--     type, and on an option that is not initialized: LookupOption of that arg panics then, and so does
--     RawParse, which looks up all the args first (raw_parse_binding).
--   * Results: set.go's BindingResult, with appendOutput, lookup and MergeBindingResults.
--   * Positional: set.go's argBinding (SetArg, Done, next) and argList.take.
--   * Parse: set.go's RawParse and option.go's toRaw. Parse.Words is the inner loop that offers words to
--     the positional args, Parse.Options the long and the short options, Parse.Loop the loop `Parsing`
--     and what stands before it. A Machine is the record of the loop's variables, an Exit the way a
--     round ends, and `panics` an index out of range or a call on nil.
--   * Values: value.go's setCore, setReset and optionApplyValueConventions, and flag.go's optionSet, on
--     values of four types. A map is a reference into a table of maps, so that a map which setDirect
--     stores is shared; a slice stands for its elements, so an append to a default slice with room
--     behind it is not modelled. A value of the wrong type is a panic of setDirect (set_panics).
--   * States: set.go's directBindingState and multiBindingState, and ApplyTo. The values that pointers
--     lead to are cells of a store, so that clones which share a pointer share a value. What a cell shows
--     is its value, with the map in place of the reference.
--   * Commands: command.go's finalizeArgsAndFlags, which names args and refuses duplicates before a
--     command runs. Commands.Subcommands: finalizeSubcommands and findCommandByName.
--   * Commands.Order: topoSortFlags of command.go, which orders the flags of a command by what they
--     depend on, with orderClass of option.go. A flag is the index at which it is defined, and one more
--     round than there are flags is enough fuel. Commands.Order.Greedy says what the order should be.
--     Commands.Order.Flags: orderFlags, which reads the names of the dependencies.
--   * Commands.Suggest: suggestCommandNames and levenshtein of command.go. A text stands for its
--     runes, so the threshold, which counts bytes, is right where each rune has one byte.
--   * Commands.NotFound: subcommandCore and tryFindCommandOrIntercept of command.go, with the
--     registration and the composition of CommandNotFoundHandlers, and ImplicitCommand. A handler is a
--     function on what the routing uses of the context; to run a command is a parameter, and its
--     lineage of data is not changed during a search.
--   * Extensions.Expr: extensions/expr/expr.go's parseExpressions over the RawParse of Parse, on fuel:
--     a round takes a byte of the words at least. Extensions.Expr.Evaluation: evaluateCore and the
--     evaluators of predicates and of composites. An evaluator's run is a tree, whose yields go on with
--     the error that the yield returns.
--   * Synopsis.Usage: internal/synopsis/placeholder.go. The pattern of regexp is written out as the scan
--     that it stands for; its rounds take a byte each, so the length of the text is enough fuel.
--     Synopsis.Names: canonicalNames and withLongAndShort of internal/synopsis/synopsis.go.
--   * Filters: filter.go's PatternFilter, HasData, Any and All, on the path and the data of a context;
--     Paths has the patterns of paths.
--   * Support.Names: internal/support/names.go. Extensions.Exec: extensions/exec/arglist.go.
--     Extensions.Color: extensions/color/mode.go.
--   * Actions: action.go's actions, as functions on a state that stands for the context and all that they
--     write. Actions.Pipelines is the way from nested pipelines to what they execute, Actions.Timings
--     puts actions off to their timing, and Actions.Flow has the order in which context.go visits
--     lineages, flags and args, and commands. Paths: ContextPath of context.go and its patterns.
--   * Extensions.Expander: extensions/expr/expander/pattern.go. Scan has findAllSubmatchIndex, Compile
--     the way from a text to a Pattern, and Format the expansion, the text and the names of a pattern,
--     with three of the expanders of expander.go. The number of spare bytes in the array of a pattern is
--     a parameter, since a slice of a pattern may reach behind its end.
--   * Samples: runs of the tests of the repository, and the theorems at concrete inputs.
--
-- A client's parser calls NewBinding, then RawParse with the flags of toRaw; RawParse makes an
-- argBinding from the binding and records in a BindingResult, which ApplyTo hands to the binding
-- states of the options. The theorems on RawParse take any
-- Binding, which is a record of functions with the law IsLawful.
--
-- Fuel and bounds: the loop `Parsing` runs on two rounds for each argument and two more; a word that is
-- pushed back is read again as a positional argument, and never pushed back twice. SetArg makes as many
-- rounds as takers are left. strconv.Atoi has the range of 64 bits. Counts are natural numbers, the
-- count of the right-to-left mode is an integer, and no sum here reaches the bounds of an int.
--
-- Not modelled: transforms of an option and values of other types, the actions that the library brings
-- and the conditions of IfMatch other than patterns, the writers of help screens, completion, files, the
-- writers that a pattern is expanded to, the evaluators of expressions that are made by reflection, and
-- the other extensions. They read or write the outside, or go through reflection.
pub mod Common
pub mod Support
pub mod Errors
pub mod Counters
pub mod Binding
pub mod Results
pub mod Positional
pub mod Parse
pub mod Commands
pub mod Extensions
pub mod Values
pub mod States
pub mod Actions
pub mod Paths
pub mod Synopsis
pub mod Filters
mod Samples
