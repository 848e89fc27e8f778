-- ===== src/Examples.antt =====
-- The theorems at concrete inputs. `Data` holds the tables and the calls.
mod Data
mod Queue
mod Tables
mod Policies
mod Webhook
mod Worker
mod Pool
mod Runs
mod Eventing
mod History
mod Services
mod Http
mod Start
mod Bench
