-- ===== src/Tests.antt =====
-- Runs of the modelled code at concrete inputs, and each theorem with hypotheses at one of them.
mod Naturals
mod Sorting
mod Naming
mod Creating
mod Renaming
mod Batches
mod Moves
mod Uploads
mod Deletes
mod Storages
mod Migrations
mod Enqueuing
mod Counting
mod Copying
mod Recycles
mod Roots
mod Permissions
mod Bookmarking
mod Importing
