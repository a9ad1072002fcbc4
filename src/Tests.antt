-- ===== src/Tests.antt =====
-- Runs of the definitions on concrete inputs, for the theorems that have conditions.
mod Instances
mod YandexRuns
mod SdkRuns
mod SubnetRuns
mod ClaimRuns
mod LaunchRuns
mod ListedRuns
mod TypeRuns
mod NodeClassRuns
mod AuthRuns
mod PriceRuns
mod ConfigRuns
mod WorkerRuns
