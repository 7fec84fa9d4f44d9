-- ===== src/Lib.antt =====
-- 8bkc-chooser, the program that a PocketSprite runs first: it shows the installed applications,
-- serves a web interface over its own access point to upload, list, fetch and delete them, and
-- has screens for charging, key lock, options and recovery.
--
-- The parts, and the files that model them:
-- - Base: numbers, integers, tests, byte buffers and texts that all parts share. Libc: the
--   functions of the C library that the sources call. Platform: what they call of the SDK and of
--   the web server (appfs, nvs, httpd), as a record of functions, with the shapes of a request, a
--   call and a reply. Hardware: the codes of buttons and charger states.
-- - Upload (main/cgiappfs.c, cgiUploadFile): the state struct, one function for each branch of the
--   loop, and the handler. Upload/Buffer, Runs, Rounds, Chunks, Pages, Stored, Replies and
--   Failures hold proofs about the page buffer, the loop, one round over two parts, a body cut
--   into parts, the pages in flash, what appfs stores, the replies, and uploads that fail;
--   Upload/Appfs is what is assumed of appfs. Upload/Session is the server's loop over the parts
--   of a body. Upload/Turns is the server that handles deletions between the parts;
--   Upload/Pending, Resume, Spared and Deletions hold proofs about an upload between two parts,
--   and Upload/Interrupted about one that is cut off before a restart. Web joins the upload and
--   the download.
-- - Download (main/cgiappfs.c, cgiDownloadFile) and DevDownload (main/cgidev.c, cgiDownloadFlash
--   and cgiDownloadLog): handlers that are called until they answer HTTPD_CGI_DONE. Serve is the
--   server's loop over such a handler; Download/Chunks treats all handlers that send chunks.
--   Ownership is about the state structs that the three allocate.
-- - FileIndex: json_esc, cgiFileIdx and cgiDelete of main/cgiappfs.c and delete_temp_files of
--   main/main.c. FileIndex/Listing has the calls of cgiFileIdx for one request, FileIndex/Rows the
--   lines it prints, Libc/Print the numbers in them; FileIndex/Cleanup is about what
--   delete_temp_files leaves.
-- - Charging, Recovery, Boot: handleCharging, do_recovery_mode, handleKeyLock and app_main of
--   main/main.c. A loop that waits for hardware takes the list of what it reads. Boot/Restart
--   relates what a start leaves in the RTC register to what the next start does with it, and
--   Boot/Locked follows the key lock through any number of starts. Boot/Channel relates the
--   settings that the options menu saves to the start that finds them, and Charging/Ends says how
--   handleCharging ends. A call under
--   ESP_ERROR_CHECK is a stage, with an abort behind it where the call fails.
-- - Routes: the table builtInUrls of main/main.c, as data. The search in it is the server's.
-- - Gui and Options: main/gui.c. The menu widget is in the SDK, so a menu takes the list of the
--   events that the widget hands over; Gui/Menu is guiMenu, with the file chooser as a parameter.
--   Options/Bounds, Texts and Saves hold proofs about the values, the texts on the screen, and
--   leaving the menu.
-- - Adapter: components/tcpip_adapter/tcpip_adapter_lwip.c and its header. The static variables
--   are a record that the calls pass on; lwIP is the record Lwip of functions over its own state.
--   Adapter/Iface, Address, Lost, Dhcp, Server, Names and Input hold the calls, Adapter/Lease,
--   Announced, Static, Ready, Own and Invariant hold proofs. Adapter/Events is an abstract machine
--   of what a listener sees (the events, the station's last announced address, the timer), and its
--   children relate each call to it. Adapter/Ipc is the hand-over of a call to lwIP's task, with
--   its semaphores, for any number of tasks that run in any order and any functions that are handed
--   over; Adapter/Ipc/Ready has the adapter's own functions, and what other tasks and lwIP's
--   callbacks do beside them. Adapter/Ipc/Holder, Kept, Answers, Serial, Progress,
--   Losses and Own hold proofs.
-- - Sample is a platform in the small, and Tests applies the theorems to concrete inputs.
--
-- Between the parts: the handlers and delete_temp_files share the file system of Platform; the
-- main routine calls the screens and starts the adapter and the server. A handler's reply holds
-- what it sends and the number of live allocations, so that leaks and early frees can be stated.
--
-- Bounds and fuel: upload_loop runs on fuel, the length of the data plus 3 (one round creates
-- the file, each other round but one takes a byte). erase_blocks has a round for each block of
-- the partition and one for the test that ends the loop. delete_temp_files takes its fuel as an
-- argument, one round for each file that is listed and one for the end. Addresses and registers
-- are numbers with the wrap-around written out where the source relies on it; sizes of files are
-- below 2^31, where C's int and these numbers agree.
--
-- Not modelled: the vendored copy of lwIP under components/lwip, the web server (a submodule),
-- the drawing library, logging, the delays, and the handlers of main/cgi.c, which are commented
-- out.
pub mod Base
pub mod Platform
pub mod Libc
pub mod Serve
pub mod Upload
pub mod Download
pub mod DevDownload
pub mod FileIndex
pub mod Hardware
pub mod Charging
pub mod Recovery
pub mod Boot
pub mod Gui
pub mod Options
pub mod Adapter
pub mod Sample
pub mod Tests
pub mod Routes
pub mod Ownership
pub mod Web
