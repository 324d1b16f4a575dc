-- ===== src/Tests.antt =====
-- Runs of the model at concrete inputs.
mod Data
mod Wire
mod Route
mod Heart
mod Net
mod Rpc
mod Ends
mod EndToEnd
mod Json
mod Quit
mod Work
mod Beat
mod Registry
mod RemoteCall
mod Parse
mod Closure
mod Async
