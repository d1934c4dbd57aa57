-- ===== src/Tests.antt =====
-- Tests of the definitions, and each theorem that has hypotheses applied at an input that meets
-- them.
mod Paging
mod Scheduling
mod Exiting
mod Forking
mod Opening
mod Signalling
mod Printing
mod Terminal
mod Typing
mod Caching
mod OneBuffer
mod OneReader
mod Disk
mod Requesting
mod Freeing
