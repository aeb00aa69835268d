-- ===== src/Lib.antt =====
-- conniver wraps a `net.Conn`, tracks its traffic, and gathers the kernel's TCP statistics when
-- the connection is opened and closed. The repository also has the helpers of pkg/kernel, pkg/os
-- and pkg/osversion, and the commands httpstat and get. This library models:
--
-- * wrap.go, the wrapper (Conn). `State` has the struct `Conn`, its mutex and the statements
--   that `Read` and `Write` run under the mutex (track_read, track_write); `Report` has
--   `gatherAndReport` and `WrapConnWithContext`; `Methods` has `Read`, `Write`, `SetReconnects`
--   and `Close`, sequences of such calls (calls), and a wrapping followed by calls (session);
--   `Snapshot` has `Warnings` and `ToMap`, which take the lock and change nothing. What the
--   wrapper uses of pkg/tcpinfo is the record `Platform`, which `linux`, `darwin`, `windows` and
--   `other` fill with the definitions below. The state is passed on explicitly, `none` is a run that
--   never returns (a lock of a held mutex, a callback that does not return) or, in `Snapshot`, a
--   panic, of which a nil address of the underlying connection is one cause. The results of the underlying connection, the clock and the system calls are
--   arguments of each call. The callback is a function on the state: it may use the lock, and
--   the theorems ask of it (Effect.Watches) that it returns when it finds the lock free and
--   leaves the fields as they are. `Effect` says what a method does to a connection whose lock
--   is free.
-- * wrap.go used by several goroutines (Conn/Threads): each goroutine is ahead of a lock, inside a
--   critical section, or in the part of `gatherAndReport` that runs without the mutex; `Move` is a
--   step of one of them, `Step` one of the system and `Reach` what some steps lead to. A critical
--   section reads the fields into a copy of the goroutine in one step and writes the changed copy
--   back in a later one, so that only the mutex keeps others from writing in between. The callback
--   is one that takes the mutex to read the connection, and a log notes the critical sections in
--   the order in which they wrote.
-- * pkg/tcpinfo (Tcpinfo): tcpinfo.go in `Info` and `TcpOption`, the maps that `ToMap` makes in
--   `AnyMap`, init_linux.go in `Linux/Versions`, and tcpinfo_linux.go in `Linux/Raw`,
--   `Linux/SysInfo`, `Linux/ToMap`, `Linux/Unpack`, `Linux/ToInfo` and `Linux/Get`. The
--   package's version flags are Boolean cells, numbered in the order of the table. What the
--   socket options of one socket return is the record `Sockopts`. `Linux/Layout` lists the
--   fields that newer kernels added with the end of each in the struct. tcpinfo_darwin.go is in
--   `Darwin` and tcpinfo_windows.go in `Windows`, with what the system call gives as arguments;
--   the loop over the options is in `Options`, the maps of names in `Names`. tcpinfo_other.go is
--   in `Other`, and `Linux/Socketcall` has tcpinfo_linux_386.go, on what socketcall answers to its
--   number and its arguments. `AnyMap/Kinds` and `Typed` are about the Go types of the values in the
--   maps of all platforms, the widths of unsigned integers among them.
-- * pkg/kernel (Kernel): kernel.go and kernel_unix.go. `Scan` models the verbs %d and %s of
--   `fmt.Sscanf` and literals in a format, as far as `ParseRelease` uses them. kernel_windows.go
--   is in `Windows`, on what the registry and `GetVersion` answer. `Uname` has uname_unix.go
--   and uname_unsupported.go.
-- * pkg/os (OperatingSystem): operatingsystem_linux.go on the bytes of the files. `Lines` has
--   what it uses of bufio, the bound of 65536 bytes on a scanned line included. `Windows` has
--   operatingsystem_windows.go and windows_os_string.go, on what the registry and
--   `RtlGetVersion` answer, and `Unix` operatingsystem_unix.go, on what uname gives.
-- * pkg/osversion (Osversion): osversion_windows.go and platform_compat_windows.go, on the
--   numbers that `RtlGetVersion` gives. `Revision` has the variable that `Get` keeps and
--   `BuildRevision`, `Builds` the build numbers of windowsbuilds.go.
-- * cmd/httpstat (Httpstat): main.go. `Command` is the whole command up to its last visit,
--   `CommandLine` the flags of `init` with what `flag.Parse` does, `Main` the checks of `main`,
--   `Request` what becomes of the URL, the header options and the body, `Headers` the type
--   `headers` and the header lines, `Times` the hooks of the trace and the printed times,
--   `Response` the disposal of the body, `Visit` the visits and the redirects, `Tls` the client
--   certificate and the TLS configuration, `Output` and `Prints` what a visit prints. `Network`
--   has the connections that `dialContext` wraps, which are worlds of the model of wrap.go, the
--   pointer `connConn` to one of them, as its place in the list of all, and the report on it. A
--   connection that package net has dialed has both addresses (Dialed); what
--   the transport does is a sequence of dialings and of calls on the connections. The exchange of
--   a request for a response, the parsers of the standard library, `sort.Sort` and the files are
--   arguments. A visit takes one step of fuel; 11 are enough, as no more than 10 redirects are
--   followed. The loop of `readClientCert` takes one for each block, and more than the file has
--   bytes are enough, as a block is not empty.
-- * cmd/get (Example): main.go, the `DialContext` and the callback, on the model of wrap.go.
--
-- `Common` has integers over the native numbers, the wrap of an int64, texts as lists of code
-- points with what the programs use of package strings, decimal prints, bit masks, and lemmas on
-- lists. An unsigned field of the kernel's struct is a number, and a theorem that needs its
-- width says so; an int64 sum keeps its wrap. The decimal print of `n` runs on the fuel `n + 1`,
-- which is enough as each digit divides by ten; everything else is structural recursion. `Tests`
-- has concrete runs and each theorem at a concrete input.
--
-- Not modelled: JSON, the system calls (uname among them), files and registry reads themselves,
-- and pkg/tcpinfo/examples/tcpdial, which only dials and prints; of cmd/httpstat the usage
-- text, the time limits of the transport and the colours.
pub mod Common
pub mod Conn
pub mod Example
pub mod Httpstat
pub mod Kernel
pub mod OperatingSystem
pub mod Osversion
pub mod Tcpinfo
pub mod Tests
