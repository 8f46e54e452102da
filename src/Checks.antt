-- ===== src/Checks.antt =====
-- Tests of the definitions on concrete inputs, and each theorem at an input that meets its conditions.
mod Samples
mod DataTests
mod DataWitnesses
mod AppWitnesses
mod ViewWitnesses
mod SaverWitnesses
mod PageWitnesses
mod SparklineWitness
mod ChartWitnesses
