-- ===== src/Examples.antt =====
-- Concrete runs of the model, and each theorem at an input that meets its hypotheses.
mod Samples
mod Investigation
mod Scores
mod Queries
mod Deliveries
mod Redeliveries
mod Searches
mod Calls
mod Attributions
mod Schemas
mod Metadata
mod Callbacks
mod Pages
mod Evaluations
mod Registries
mod Matches
mod Profiles
