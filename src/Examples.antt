-- ===== src/Examples.antt =====
-- Tests and concrete instances of the theorems.
mod Words
mod Code
mod Processes
mod Tables
mod Members
mod Names
mod Interpreting
mod Compiling
mod Inlined
mod Objects
mod Typing
mod Typed
