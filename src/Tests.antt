-- ===== src/Tests.antt =====
-- Instances of the interfaces to other libraries, and each theorem at a concrete input.
mod SampleJson
mod SampleBimap
mod SampleStart
mod SampleAdded
mod Messages
mod Manager
mod ConfigFiles
mod Answers
mod Watching
mod Files
mod Client
mod SampleShop
mod Stopping
mod Reporting
mod Adding
mod Life
mod Timeouts
mod Served
mod Lost
mod Bare
