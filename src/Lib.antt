-- ===== src/Lib.antt =====
-- binder: an HTTP client, an HTTP service and a download service that talk over Android's binder, and
-- a command-line client.
--
-- The client program (client/download.cpp) asks the download service to fetch a URL into a file. The
-- download service (service/download) runs a worker thread per download, which asks the http service
-- (service/http/HttpService.cpp) to write the body into a file descriptor; progress and cancellation
-- go through the calls between them. The http service runs the HTTP client (service/http/HttpClient.cpp).
--
-- Which file models which part:
-- - Prelude: shared names, tests on numbers, integers, lists, and maps by association lists.
-- - Text: byte strings as lists of codes; toLower and trim of service/http/HttpClient.cpp, and the C
--   library's strtoll, atoi and decimal printing as the program uses them.
-- - Http/Code, Http/Url, Http/Headers, Http/Response: the error codes, Url with parseUrl, hostHeader,
--   toString and resolveRedirect, class Headers, parseStatusLine and parseContentRange.
-- - Http/Reader: class Reader. A connection is the list of its turns: at each, what the cancel poll
--   says, what recv returns, and how long the turn takes. readLine and fill are recursions on it.
-- - Http/Body, Http/Body/Chunked: pumpPlain and pumpChunked, over any sink.
-- - Http/Conn: PlainConn and TlsConn, over what read, SSL_read and SSL_write answer.
-- - Http/Connect: connectTcp and openConnection, over what the system calls and OpenSSL answer;
--   Http/Connect/Https gives performOnce the connection that they open, plain or over TLS.
-- - Http/Exchange: sendAll and performOnce. Http/Get: get and getString.
-- - Service/Requests: the table of requests of service/http/HttpService.cpp with a store for the
--   objects that the table and the transfers share; beginRequest, endRequest, newRequestId and cancel.
--   Service/Fetch: writeFully, fetchToFd and getString. Service/Fetch/File: the file behind the
--   descriptor, as contents and an offset.
-- - Download/Task: runTask, finish, cancel and ProgressRelay of service/download/DownloadService.cpp as
--   threads that step on a shared task; a schedule is any list of steps.
-- - Download/Cancels: a cancel on its way through both services.
-- - Download/Await: awaitCompletion against finish, with the lock and the condition variable.
-- - Download/Table: the task table with enqueue, which also starts a worker, and the calls that read it;
--   httpService and ensureParentDir. Download/Table/Calls: the table after any calls.
-- - Launcher: service/main.cpp, from runManager down.
-- - Client/Options: parseArgs, fileNameFromUrl and absolutePath of client/download.cpp. Client/Waiting:
--   its callback, death recipient and main, on the list of what comes to the process. Client/Bar: the
--   progress bar.
-- - Vintf: the stand-in for libvintf, compat/vintf_stub.cpp, from the text of a manifest file on.
-- - Binderfs: tools/binderfs_ctl.cpp.
--
-- Loops: those on a connection are structural on its turns. The chunk, trailer and header loops run on
-- fuel, one more than the bytes that are pending; each round takes at least a line feed off them, and
-- the totality theorems show that the fuel does not run out. The hops of get are structural on
-- maxRedirects + 1. Request ids and the active count are 32-bit words; a worker's request id is one of
-- those that are not negative as an int32, and download ids are below 2 ^ 31; offsets and lengths are
-- natural numbers, and the integers that come from texts saturate as strtoll does.
--
-- Parameters: sockets, OpenSSL and the servers are `connect`; the file system, the
-- registry and the http service as the worker sees them are `Env`; lseek, ftruncate and write are
-- parameters of Service/Fetch, with what they do to a regular file in Service/Fetch/File.IsFile, and so
-- is the clock; the BINDER_CTL_ADD ioctl is a parameter of Binderfs with Binderfs/Devices.IsBinderfs.
--
-- Not modelled: the system calls of the launcher, the stand-in for libselinux (constant answers), what
-- is printed but for the bar (humanBytes is floating-point formatting), logging, the vendored libraries
-- under external, the AIDL files and the code generated from them.
pub mod Prelude
pub mod Text
pub mod Http
pub mod Service
pub mod Download
pub mod Client
pub mod Launcher
pub mod Vintf
pub mod Binderfs
