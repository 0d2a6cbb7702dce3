-- ===== src/Lib.antt =====
-- The program pure-usb: the USB core (usb.c), the EHCI host controller driver (ehci-hcd.c), the loop
-- that starts them (main.c), the OHCI register scripts (ohci-test.c), the console with its two serial
-- ports (console.c, ns16550.c, tube.c), and the headers they share.
--
-- How the parts interact. usb.c keeps the device table, builds standard requests and sends them
-- as control messages; every message goes to the host controller driver by three functions,
-- which Host.antt collects as an interface (a record that the USB core takes as a section
-- parameter). ehci-hcd.c is the driver, and Ehci.Driver fills the interface: it serves requests to the
-- root hub from its registers, and all others by transfer descriptors in memory that it shares with
-- the controller. main.c calls ehci_init, ohci_check, and then the USB core over this driver.
--
-- Which file models what.
-- - Prelude: lists, integers, machine words and bits over the native natural numbers.
-- - Defs: the constants of usb_defs.h, usb.h and usb.c.
-- - Device: struct usb_device and struct devrequest of usb.h; Device.Bytes and Device.Layout have
--   the packed structures that the code reads by their bytes.
-- - Pipe: the pipe and toggle macros of usb.h. A pipe is one 32-bit number.
-- - Host: the functions that usb.c expects of a host controller driver.
-- - Usb: the global variables of usb.c as one state, and the monad its functions run in. `none`
--   is an access outside a C object; `some` has the C result and the new state.
--   Usb.Message has usb_control_msg and usb_bulk_msg, Usb.Request the standard requests,
--   Usb.Devices the device table, Usb.MaxPacket the endpoints' packet sizes, Usb.Config the
--   configuration descriptor, Usb.Strings the string descriptors, Usb.Hub the hub driver (Hub.Init
--   has usb_hub_init, Hub.Change usb_hub_scan), and Usb.Scan the enumeration of a device.
-- - Ehci: the driver's variables, a controller as an interface (registers that read and
--   write, delays, and what the controller does to the shared memory), and the recorded register
--   access. Ehci.Regs has the register layout of ehci.h, Ehci.Handshake the polling loop and the
--   reset, Ehci.Queue the transfer descriptors, Ehci.RootHub the function ehci_submit_root,
--   Ehci.Schedule the queue heads and ehci_alloc, Ehci.Schedule.Build the first half of
--   ehci_submit_async, Ehci.Async the rest of it, Ehci.Driver the submit functions, and Ehci.Init
--   ehci_init with ehci-fusb20.c.
-- - Ohci: ohci-test.c, its scripts as lists of accesses.
-- - Console: console.c; Console.Uart is ns16550.c, Console.Tube is tube.c.
-- - Delay: the busy loops of time_board.c.
-- - Program: the loop of main.c.
-- - Usb.Keeps has rules for invariants of the monad's actions. Usb.Table is the invariant of the device
--   table and what it needs of a driver, and the modules named Table, Size and Updates below the
--   components carry it through their functions; Program.Table is the whole program's.
--   Program.RootHub runs the USB core over the driver's root hub, for any controller.
--   Usb.Runs has rules for runs that have a result, and Ehci.Yields those of the driver's own monad:
--   Ehci.Driver.Returns and Ehci.Driver.Hub use both for the hub driver over the root hub.
-- - Tests: concrete runs.
--
-- Correspondence. A device pointer is its index in usb_dev, NULL is `none`. A C function that
-- fills a buffer returns the buffer's new bytes with its result. Machine words are natural numbers
-- with the wrap-around written out. What usb.c,
-- ehci-hcd.c and main.c print, by printf and the debug macros, is left out.
--
-- Bounds and fuel. handshake counts its microseconds down, which is its fuel: the C loop runs at
-- least once, so the model has max 1 usec rounds. The loop of ehci_td_buffer has five rounds, one
-- for each buffer pointer. The wait of a control message has its timeout as the number of rounds.
-- The loop of usb_parse_config has the total length as its fuel, which is enough wherever each
-- descriptor has a length; a loop out of fuel is `unfinished`, and the model of usb_parse_config
-- has no result then. The wait for a transfer has the 1000 rounds of the source, and the release of a
-- schedule that failed has four, one more than there are descriptors. The waits of ns16550.c and of
-- ehci_check have no bound in the source, and take the number of reads as a parameter; main takes the
-- number of rounds. A port reset has the five tries of MAX_TRIES. A string's loops have its length.
-- g_ehci_counter is held as its 32-bit word: where C leaves its overflow undefined, the word wraps
-- around, and a negative index leaves the ring as it is. portreset has 16 bits.
--
-- Memory. What an uninitialised local buffer holds, and where it lies, is a parameter (Storage).
-- The packed structs of descriptors are lists of bytes, and an access is in range if it lies in the
-- whole struct usb_config or struct usb_hub_descriptor. A loop over the ports of a hub takes the
-- port number once, at its start. What the controller does to the shared memory between two looks of
-- the driver is a function of the controller, which may change all of it; theorems that need the chain
-- of descriptors whole have that as a hypothesis, KeepsLinks. Data and instruction caches are off, as
-- the build has them. The addresses of the static variables are a parameter (Statics).
--
-- Not modelled: the C library copies (string.c, vsprintf.c), of which the console takes vsprintf as a
-- parameter (Formatter), what the drivers print,
-- the ARM start code, and the halt of hang.c. In ohci-test.c, what follows the return of
-- ohci_check is never run and most of ehci_check is a comment.
pub mod Prelude
pub mod Defs
pub mod Device
pub mod Pipe
pub mod Host
pub mod Usb
pub mod Ehci
pub mod Ohci
pub mod Console
pub mod Delay
pub mod Program
pub mod Tests
