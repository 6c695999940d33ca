-- ===== src/Lib.antt =====
-- A verification library for tableaux-eink-go, which drives an e-paper panel behind the device
-- /dev/ebc and serves it over gRPC.
--
-- Parts of the program and of this library:
--
--   einklib      the panel. Einklib/Waveform.antt is einklib/waveform.go (mode_string,
--                parse_waveform_mode, eq_fold are String, ParseWaveformMode, eqFold);
--                Einklib/Geometry.antt and Einklib/Interface.antt are einklib/display.go (its
--                methods, and the interfaces Display and Frame as the record DisplayApi with
--                the laws IsLawful); Einklib/Bitmap.antt is einklib/bitmap.go; Einklib/Device.antt
--                is einklib/ebc_ioctl.h and the system calls (the record Kernel with the laws
--                IsKernel); Einklib/Display.antt is einklib/display_linux.go.
--   einkproto    the messages: Einkproto.antt is the types of einkproto/display.pb.go.
--   einkgrpc     the server. Einkgrpc/Modes.antt is translateMode and
--                Einkgrpc/DisplayService.antt the handlers of einkgrpc/displayservice.go, over any
--                DisplayApi; Einkgrpc/TokenAuth.antt is einkgrpc/tokenauth.go;
--                Einkgrpc/CertManager.antt is einkgrpc/certmanager.go over the record Host of
--                Einkgrpc/Host.antt, the file system, clock, random source and crypto packages;
--                Einkgrpc/Credentials.antt is its fingerprints and the handlers that change or
--                hand out credentials. Einkgrpc/Mdns.antt is einkgrpc/mdns.go and
--                einkgrpc/mdns_zeroconf.go, and Einkgrpc/Server.antt is New, Start, Stop, ConnectURI
--                and the restart callback of einkgrpc/server.go, over the record Net of
--                Einkgrpc/Net.antt, the sockets and the advertisement. There a call is one step;
--                Einkgrpc/Server/Overlap.antt has Stop in its parts, with other calls between them.
--                Einkgrpc/Backend.antt is the server that Start puts together for its clients: the
--                interceptors in front of the handlers.
--   einkapp      the Android library. Einkapp.antt is einkapp/app_android.go: its package
--                variables are the record App, and do_init, do_start, do_stop, do_rotate,
--                do_connect_uri and so on are doInit, doStart, doStop, doRotate, doConnectURI, over
--                the record Platform, which joins the kernel, the host and the network with the
--                foreground service. Einkapp/Calls.antt is einkapp/app.go, any
--                sequence of its calls and of what clients make the server do; Einkapp/Logs.antt is
--                the log snapshot and the log observer;
--                Einkapp/Stub.antt is einkapp/app_stub.go and einklib/display_stub.go.
--   tableaux-cli the client. Cli/Flags.antt is tableaux-cli/dial.go; Cli/Waveform.antt,
--                Cli/Upload.antt, Cli/Texts.antt and Cli/Commands.antt are parseWaveform, the upload
--                of cmdRefresh, what is printed, and the commands of tableaux-cli/commands.go
--                (cmd_info is cmdInfo and so on), over the record Remote of Cli/Remote.antt, the
--                calls of the server and of the system;
--                Cli/Dispatch.antt is the flags of each command and main of tableaux-cli/main.go.
--
--   both ends    Link.antt joins the commands of the client to Einkgrpc/Backend.antt, by what is
--                taken for granted of gRPC and of a connection that works; the files below it say
--                what a command does to the server.
--
-- What the program uses of Go's standard library is below Base: package strings in Base/Text.antt,
-- strconv in Base/Strconv.antt and Base/Flag/Values.antt, flag in Base/Flag.antt, net/url in
-- Base/Url.antt, errors in Base/Errors.antt, and the integers in Base/Int.antt.
--
-- A call of the client passes the interceptor of TokenAuth, then a handler of DisplayService,
-- which takes a frame of the display, writes its bytes and commits or cancels it. State is passed
-- explicitly: an operation takes the state and returns its result with the state after it. A
-- mutex makes an operation one step, so that an execution is a sequence of operations. A frame
-- shares its display; the operations of a frame take and return both.
--
-- Numbers: Go's int32, int64 and int are the integers of Base/Int.antt, with `wrap64` around the
-- products of frame_byte_count; sums of lengths stay below 2 ^ 63, since a slice is smaller than
-- the address space, and are written without it. A byte string is a list of numbers, and no
-- definition makes a byte of 256 or more.
--
-- Loops are recursion on the list that they consume. Three run on fuel: the sending loop of
-- cmdRefresh, whose fuel is an argument (one more than the size of the file is enough), and
-- the trimming and the decimal digits of Base/Text.antt, which take the length of the text or the
-- number as fuel and use less in each round than they have. A Go map that is ranged
-- over is a list of its keys, in an arbitrary order that is an argument.
--
-- The locks of einkapp and of Server.Stop do not cover a whole call. Einkapp/Overlap.antt has doStop
-- and doRotate in their sections, with other calls between them, as Einkgrpc/Server/Overlap.antt has
-- Stop; the servers are in a store there, since a call under way keeps its pointer.
--
-- Parameters: the kernel, the host's files and crypto, the sockets and the advertisement of the
-- server, the foreground service of Android, the network of the client, the calls of the server's
-- stubs and of the file system by the client, url.Parse (with what is documented of a URL that has
-- a scheme, a host, a port and a query, in Base/Url/Authority.antt), strconv.Quote, the case tables
-- of Unicode (which only text with a byte over 127 reaches), the time that a handler measures, and
-- the result of sending the answer of a stream. Between client and server, the record Link: which
-- server a connection reaches, how a status looks to the client, and the sizes that are accepted.
--
-- Not modelled: the generated code of the protocol besides its types, which has no logic of this
-- program; what package flag writes to stderr, and the deadline of a call of the client, which is
-- an error of that call; the notification and the records that the Android library writes to its
-- log, and the Kotlin application around it.
--
-- Tests.antt and the modules below it hold runs on concrete input: a panel of two pixels by one
-- on a toy kernel, and a host with one directory.
pub mod Base
pub mod Einklib
pub mod Einkproto
pub mod Einkgrpc
pub mod Einkapp
pub mod Cli
pub mod Link
mod Tests
