-- ===== src/Lib.antt =====
-- A verification of the signaling server and its client.
--
-- The program: src/server.cpp keeps a store of users and runs one thread for each client. A client
-- (src/client.cpp) connects, tells the address at which it listens, and the thread connects back to it:
-- requests go over the first socket, and INVITE, ACCEPT and EXIT over the second. CALL name sdp is turned
-- into INVITE name sdp for the callee; its answer ACCEPT sdp is forwarded to the caller.
--
-- The parts and their files:
--   Base            shared names, byte texts, C integers
--   Fault           what a run may do besides returning: undefined behaviour, or an uncaught exception
--   User, UserStore src/User.cpp and src/UserStore.cpp: addUser is add_user, loginUser is login_user,
--                   logOutUser is log_out_user, hasUser, isLogin and getUser are has_user, is_login and
--                   get_user. UserStore/Spec has the store as a function from names to users, and
--                   UserStore/Unordered as a quotient that forgets the order of its entries.
--   Wire            the C string functions on fixed arrays: sscanf, strncpy, strncmp, sprintf
--   Server          client_handler and connect_to_client of src/server.cpp: Session its locals and the
--                   surroundings, Commands and Call its branches, Loop its loop and its end; System all
--                   threads at once, in steps from one lock to the next, Shutdown what a turn does
--                   once running is cleared, Isolation which users a thread can change, Calls the
--                   guards of a CALL, Connected which sockets the threads use; Main main; Process
--                   main with its threads and the handler of SIGINT
--   Client          src/client.cpp: State its globals and its handler of SIGINT, Requests the functions
--                   that ask the server, Menu open_menu, Listener server_handler, Main main, Process
--                   the menu, the listener and the handler of SIGINT over the globals, with Serial the
--                   two threads against open_menu and the listener's loop
--   Rtp             the loops that pass RTP packets to a track: media_handler of src/client.cpp, and the
--                   one of src/simple_offerer.cpp
--   SimpleOfferer   main of src/simple_offerer.cpp
--   SimpleAnswerer  main of src/simple_answerer.cpp: read_offer, on_line and on_message its parts
--   Handshake       src/offerer.cpp and src/answerer.cpp: Offerer and Answerer their main functions,
--                   Exchange the one against the other
--   Gathering       the callbacks of src/offerer.cpp, src/answerer.cpp and src/client.cpp for local
--                   candidates and for the end of gathering: on_notice, on_gathering and
--                   client_on_gathering; Meeting has the two programs with what they leave
--   Protocol        the client's messages as the server reads them; Calls has a call through the server
--                   and the callee, Sessions a login and an exit, Interrupt a SIGINT,
--                   Bounds a request of any length
--   ThreadSafeMap   include/ThreadSafeMap.hpp and src/ThreadSafeMap.cpp, with its file format; Refines has
--                   the map as a function from keys to values
--   Tests           the theorems at concrete inputs
--
-- How it is modelled. A text is a list of bytes. A function of the program returns a Result: its
-- value, or the first fault. The state of a thread is a record, and a branch takes it and the store
-- to new ones, with the list of its system calls. What system calls return is an argument (Env,
-- Round, Reply, Choice). The store is shared: what other threads do to it between two locks of one
-- branch is a list of store operations in Env and Round. A thread's life is a list of rounds; at
-- the end of the list it waits in recv. Server/System closes the server: its steps are the turns of
-- all threads, each from one lock to the next. Server/Process and Client/Process add to the threads
-- what main does, from one access to the flag running to the next, and SIGINT as a move of its own.
-- Loops recur on their input. The one function on fuel prints a number in decimal: it gets n + 1
-- for n, and n has at most n + 1 digits.
--
-- Bounds: SOCKET_BUFFER_SIZE is 1024, words have 50 bytes and the client's address 15, as in the source;
-- size_t has 64 bits and int 32. A packet is its text and its size, the rest being NULs.
--
-- Not modelled: the contents of log output; a call that waits forever, such as the recv of a thread
-- whose client is silent, which keeps main in its join; the close of the client's socket before it
-- joins its thread; a send of media_handler that succeeds, which its socket, connected to nothing,
-- rules out; the data race of logOutUser, which takes no lock; partial sends and receives other than
-- through the bytes that recv is said to give; libdatachannel and the JSON library, which are the
-- parameter Peer of the listener and of the handshake, the parameter accepts_candidate of the
-- latter, and the parameter stamp of the loops. What is documented of the JSON library is the
-- record JsonLaws, and of libdatachannel the predicate IsDocumented: it says that gathering is
-- complete only when there is a local description. The set-up of the peer connections, and the
-- messages on the data channel, are the library's.
pub mod Base
pub mod Fault
pub mod User
pub mod UserStore
pub mod Wire
pub mod Server
pub mod Client
pub mod Protocol
pub mod ThreadSafeMap
pub mod Tests
pub mod Rtp
pub mod Handshake
pub mod SimpleOfferer
pub mod SimpleAnswerer
pub mod Gathering
