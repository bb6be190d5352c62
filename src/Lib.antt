-- ===== src/Lib.antt =====
-- Verification of parts of this repository: the stack machine, the HTML and XML parsers, the
-- browser with its address bar, the socket programs, four examples of libuv and two modules of scripts.
--
-- Parts and files
--
-- The stack machine (virtual-stack-machine.h, virtual-stack-machine.cpp) has a data stack, a list of
-- call frames and nested scopes of symbols. `main` makes a Context, lets generateCode write a
-- script, runs it by codeInterpret and prints the outermost scope by dumpScope.
--   Vm/Types      the enumerations, structs and classes of the header.
--   Vm/State      Context and the memory its pointers reach (Machine), and a monad for the code.
--   Vm/Stack      popDatum, pushDatum, pushAtom, pushNumber, pushSymbol.
--   Vm/Resolve    findSymbol, resolveSymbol, resolveValue.
--   Vm/Interp     codeInterpret: a function for each instruction, `exec` for the switch, `loop` for the
--                 loop, `with_link` for what stands around it. `declare` and `assign_symbol` are
--                 the branches of ASSIGN; `enter_frame`, `call_body` and `leave_call` those of CALL.
--   Vm/Codegen    emit1, emit2, generateAtom, generateCode, dumpScope, main.
--   Vm/Expr, Vm/Balance, Vm/Lookup, Vm/Faults, Vm/Demo   proofs: expressions, what calls
--                 give back, symbols, memory faults, the generated function.
--
-- The HTML parser (parser/htmlParser.cpp, skia/jsGUI/htmlParser.h) is a tokenizer with static
-- variables and a recursive parser that fills a DOM.
--   Html/Chars    the tokens and the character tests.
--   Html/Lexer    getStrChar and gettok, with the static variables as a record.
--   Html/Tree     DOM and Node.
--   Html/Parser   parseTag (`attribute_loop`, `child_loop`), parseHtml, parseHtmlToDOM.
--   Html/Progress, Html/Total, Html/PlainText, Html/PlainTag   proofs on the tokens and on termination.
--
-- The mouse handlers and the loading of pages (skia/jsGUI/SimpleBrowser.cpp, SimpleBrowser.h, component.h) find
-- the drawn div under the mouse and call its function, and read files and network buffers.
--   Browser/Types    DivComponent, Click and the fields that the handlers use.
--   Browser/Mouse    onMouse, onFindClickHandler, onClick, onComponentClick.
--   Browser/Content  getFileContent, grow_buffer and the string of getRemoteContent.
--   Browser/Fetch    proofs on these; `receive` is how curl hands over the chunks.
--   Browser/Paint    onPaint, as the list of what it draws.
--   Browser/Levels, Browser/Topmost, Browser/Gesture   proofs on the search, on drawing and on press, move and release.
--
-- The XML parser (parser/xmlParser.cpp) reads words and tags from its input.
--   Xml/Lexer, Xml/Parser   gettok; parseXml (`content_loop` is its loop) and main up to the output.
--   Xml/Total               proofs on termination.
--   Xml/Words, Xml/Printed, Xml/Read, Xml/Parsed   documents, how they are printed, and proofs on
--                           reading them back.
--
-- The address bar (skia/jsGUI/editor_layer.h) is an editor layer whose callback is onSearchChar.
--   Editor/Types      Skia's Editor as a record of operations, the fields of EditorLayer, keys.
--   Editor/Scroll     setFont, loadFile, onResize, inval, scroll, onMouseWheel.
--   Editor/Cursor     move, moveCursor, onMouse, onChar (`command` is its switch), onKey.
--   Editor/Events     sequences of the window's events.
--   Editor/Bounds, Editor/Selection, Editor/Address   proofs; Address also has onSearchChar.
--
-- The page (skia/jsGUI/SimpleBrowser.cpp) is loaded from an address, drawn, and changed by scripts.
--   Page/Types      the DOMs by number (`Element`), `Document`, and QuickJS, files and curl (`Engine`).
--   Page/Numbers    stoi.    Page/Store   find, erase and insert; the DOMs of a parsed tree.
--   Page/Draw       getColor, domToDiv, parseDOM, drawRoot.
--   Page/Script     getElementById, getAttribute, setAttribute, setInnerHtml.
--   Page/Load       getRemoteContent, loadUri.
--   Page/Outcome, Page/Keeps, Page/Forward, Page/Ends, Page/Drawn, Page/Boxes, Page/Reads, Page/Valid,
--   Page/Requests, Page/Changes, Page/Sizes   proofs; `run` in Requests is a sequence of requests.
--
-- Two socket servers (socket/tcp-socket-server-select.cpp, tcp-socket-server-kqueue.cpp) and four
-- examples of libuv (libuv/udp-dhcp.cpp, fscat.cpp, uvwget.cpp, tcp-echo-server.cpp) stand alone.
--   Net/Select, Net/Kqueue   a turn of the loop of main; loop_once and its handlers.
--   Net/Serving      main of the select server: its set-up and the loop.
--   Net/Echo, Net/Overflow, Net/Safe, Net/Watch   proofs on these.
--   Libuv/Dhcp, Libuv/Cat    make_discover_msg and on_read; the callbacks of fscat.
--   Libuv/Download, Libuv/EchoServer   socket_callback and curl_perform; the callbacks of the server.
--   Libuv/Transfers  the rest of uvwget.cpp: main, add_download, check_multi_info, on_timeout.
--   Libuv/Offer, Libuv/Copied, Libuv/Polling, Libuv/Finished, Libuv/Completed, Libuv/Downloads,
--   Libuv/Buffers    proofs on these, with sequences of callbacks (`run_callbacks`, `run_events`).
--
-- The epoll server (socket/tcp-socket-server-epoll.cpp) and the programs that talk over one connection
-- (socket/tcp-socket-client.cpp, tcp-socket-server.cpp) or start a thread or a process for each one
-- (tcp-socket-server-thread.cpp, tcp-socket-server-process.cpp).
--   Net/Epoll        the whole program.   Net/Drain, Net/Blocking, Net/Held   proofs on it.
--   Chat/Text        the buffers of 80 bytes.   Chat/Talk   `communication` of the four programs.
--   Chat/Start       main before its loop.
--   Chat/Threads, Chat/Processes   the loops of main with the threads or processes, as steps.
--   Chat/Lines, Chat/Dialogue, Chat/Typing, Chat/Ends, Chat/Races, Chat/Turns, Chat/Forks   proofs.
--
-- Two modules of functions for scripts: timers (quickjs/test_libuv.c) and fib (quickjs/fib/fib.c).
--   Quickjs/Timers   setTimeout, clearTimeout and time_job.   Quickjs/Fib   fib and js_fib.
--   Quickjs/Counted  the steps of script and loop, and what is counted.
--   Quickjs/Balance, Quickjs/Runs, Quickjs/Sequence   proofs.
--
-- Prelude holds the names and Boolean tests that all share; Examples, Page/Sample, Net/Clients, Libuv/Sessions and Libuv/Echoes have test runs
-- and the theorems at concrete inputs.
--
-- How the code is rendered
--
-- A pointer is the number of an object; a `Datum *` is a memory block with an offset counted in
-- `Datum`s, so that the stack and the separately allocated results are different blocks. Reading
-- memory that was never written, using a null or indeterminate field, and leaving an allocated
-- block are `undefined`, and so is a read of an entry as the wrong class. What the memory of a
-- new Symbol has in `entry.value`, which no constructor sets, is the parameter `unset_value`. Numbers
-- are 64-bit patterns with wrap-around; `slot` wraps at 2^8 and `nvars` at 2^32. The fields that
-- no code reads (Atom.fval, Datum.sval, Scope.props) and the output by cout are left out. An
-- operand byte in a script is read below the script's length only.
--
-- In the tokenizer a character is a byte, and the byte 255 is the value of EOF since `char` is
-- signed; the bytes 254, 252, 251 and 250 give the numbers of other tokens. The <ctype.h> tests are those of the C
-- locale. A map is a list of pairs without a second pair for a key. The messages of perror and
-- Node::print are left out. The children of a new DOM, a pointer with no value, are `unset`.
--
-- Fuel
--
-- The loop of codeInterpret takes one fuel for each turn, and a call runs on what is left. Lookups
-- have the number of objects of the machine, which is enough for chains that lead to older
-- objects. gettok has two more than the characters left, parseTag and its loop twice the
-- characters and eight. The loop of a string that meets the end of the text runs for ever in the
-- code, which is the result `diverges`.
--
-- In the browser the floats of Skia and the script engine are parameters (Platform); a call of a
-- script function may change the page in any way, but not the pending click. onComponentClick
-- ends without a return, so the result of a click on a div is `no_return`. The search over the divs has one fuel more than
-- there are divs.
-- The XML parser has the fuel of the HTML parser; `thrown` there is the string that gettok throws.
--
-- The `int`s of the editor layer are integers without a bound (Prelude/Int): its positions are
-- pixels of one text. Its callback is a list of the characters given, its saved files a list.
--
-- On the page a DOM is its number in the list of all DOMs, none of which is ever freed. A script is a
-- call of `Engine.eval`, which may change the page in any way and fail; theorems that need more of it
-- say so by `Quiet`. readyJSDocument ends without its return, so what it does is left to the engine. The arguments of the script functions are the texts that JS_ToCString gives. A
-- root div that a script has replaced is not kept: what is still pushed to it is never shown. Drawing
-- has one fuel more than there are DOMs, and each div that is drawn inside another takes one.
--
-- What the system calls of the select server answer in a turn are arguments (Answers), and what it
-- does to sockets is a list of actions; `broken` are the sockets on which send raises SIGPIPE, which ends it; sockets are numbers and FD_SETSIZE is 1024. The kqueue server
-- has the kernel as a parameter; `reads` are the results of its calls of read and write in turn. fscat
-- has one fuel more than the file has bytes, since every read but the last gives one.
-- A download is the number of its argument; what curl calls in each of its functions and the messages
-- that it leaves are arguments. uv_poll_init_socket, whose failure ends the program, is taken to succeed. The
-- buffers of the echo server are numbers, and a request has the bytes that were read; its printf of a
-- buffer without a zero, which reads what is behind the bytes, is left out.
--
-- The epoll server has the kernel as a parameter with a world of its own; a call of read may wait
-- for ever, which is a result. Its loop around read has one fuel for each call of read. A round of
-- `communication` takes what read and write give there as an argument; a write to a connection that
-- the peer has closed may kill the program (SIGPIPE). Standard input that is over gives EOF again at
-- each call. The threads and processes take their steps, each a call or an access to conn_scokfd, in
-- any order; all turns of the loop are taken to have conn_scokfd in the same place of the stack.
-- The references of a function in QuickJS are a number, which JS_DupValue raises and JS_FreeValue
-- lowers; a timer is its place among all allocated ones, and a call of its function is two steps with
-- those of the function between them.
--
-- Not modelled
--
-- The window set-up over Skia and QuickJS (skia/jsGUI/evalJS.cpp), the datagram programs
-- of socket/ and the other examples of libuv/, and the curl, QuickJS, CMake and gn examples: they are
-- sequences of calls of the system or of other libraries.
pub mod Prelude
pub mod Vm
pub mod Html
pub mod Browser
pub mod Xml
pub mod Editor
pub mod Page
pub mod Net
pub mod Libuv
pub mod Chat
pub mod Quickjs
