-- ===== src/Lib.antt =====
-- dracd: a VNC server in front of the remote consoles of Dell DRAC controllers. A VNC client connects
-- to vnc.go, which joins it to the session of its host (drac.go). The session talks to the controller
-- through a protocol library in C (glue.go), gets frames from it, and passes each frame, a
-- reference-counted PNG (frame.go), to the writers of its clients.
--
-- The files and the code they model:
--   Common        Outcome (a value or a run-time panic of Go), integers, lists, byte order, Atoi, %d, strings
--   Keymap        keymap.go, x11ToUsb1 and x11ToUsb2 (Usb1, Usb2), and the lookup of the key event in vnc.go
--   Vnc           vnc.go: PixelFmt; Reader, the bufio.Reader; Handshake and Messages, the two halves of
--                 handleVncConnection; Update, sendVncFrame; Writer, bufferedVideoWriter and videoWriter;
--                 Pacing, the message loop beside these two
--   Connection    vnc.go: handleVncConnection from end to end, with the session of its host
--   Frame         frame.go: newFrame, newFrameFromBytes, acquire, release
--   Drac          drac.go: Recents, recentDracs; Sessions, setupDracClient, teardownDracRequest,
--                 teardownDracClient and what dracHandler removes; Handler, dracHandler; Video,
--                 videoUpdate, saveFrameForAnimation and the clean-up at the end of dracHandler;
--                 Control, ctrlReader and videoReader
--   Detect        dracDetect.go: getDracType, getValue and dracTypeString
--   WsConn        wsconn.go: a websocket as a net.Conn
--   Gif           gif.go: encodeGif; Disabled, gif_disabled.go
--   Glue          glue.go: AllocDracClientCtx, FreeDracClientCtx, GetDracCtx; Sockets, the callbacks
--                 that write to a session's sockets and start TLS on them (glue.go, glue_gossl.go and
--                 glue_openssl.go), and sendKey and sendMouse
--   Streaming     the references to the frames of a session in all goroutines: videoUpdate (drac.go),
--                 lastPngFrame, and the writers of each client (vnc.go), as one step relation;
--                 Updates, the calls of videoUpdate as steps of it, up to a send that
--                 blocks or panics; Screens, what sendVncFrame sends to each of the clients; Quantized, the quantized frames
--                 of its animation
--   Contexts      the memory of the C context of a session: ctrlReader allocates it, dracHandler frees it,
--                 and the readers (drac.go) and the clients (vnc.go, glue.go) use it, as one step relation
--   Disconnect    a client that goes: the end of handleVncConnection and its deferred teardownDracClient
--                 (vnc.go, drac.go), beside its writers and the frames that videoUpdate sends to it
--   Requests      the requests for an image (http.go) with their wait for the first frame, beside the
--                 handler, the readers and the frames of their session (drac.go), as one step relation
--   Http          http.go: the handlers; Cookies, SetupSession; Routes, ServeHttp and routeAssets of
--                 assets.go; Assets, the handlers of assets.go
--   Tests         the theorems at concrete inputs
-- The modules below a component hold its proofs.
--
-- A function that runs under a lock is one step on its state. Goroutines that meet in selects are a
-- step function on events (Vnc.Writer) or a step relation (Drac.Handler, Streaming, Contexts,
-- Disconnect, Requests, Vnc.Pacing). Pointers are indices or numbers, frames lie in a list. What a client sends is
-- the list of its bytes, up to the failure of the connection.
--
-- Bounds and fuel: the message loop runs on fuel, one unit for each round; a round takes a byte at
-- least, so that one more than the length of the input is enough. A line of the handshake is read with
-- the 4096 bytes of a bufio.Reader. Bytes and the other machine integers are natural numbers, with their
-- bounds as hypotheses where they matter. A pointer to C memory is a list of bytes or nothing, and a
-- slice of it is bounded by 2^30, as in newFrame.
--
-- Parameters: the websocket library (WsConn.WebSocket), the HTTP client with its cookies (a function
-- of the requests made so far), the router (Http.Routes.Router, with its documented behaviour in
-- IsMux), the TLS libraries (what a handshake answers), the texts of the noVNC client
-- (Http.Assets.Texts), the clock, and what the C library answers: an image, its PNG, a quantized
-- frame.
--
-- Not modelled: the protocol library in C, the texts of the web pages, the noVNC texts in assets.go,
-- the store of browser sessions, the start of the listeners, logging, changes of the list of clients in the
-- middle of videoUpdate's loop over it, and the timing of goroutines beyond the order of the events.
pub mod Common
pub mod Connection
pub mod Contexts
pub mod Keymap
pub mod Vnc
pub mod Frame
pub mod Drac
pub mod Detect
pub mod Disconnect
pub mod Streaming
pub mod WsConn
pub mod Gif
pub mod Http
pub mod Requests
pub mod Glue
pub mod Tests
