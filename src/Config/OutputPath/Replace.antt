-- ===== src/Config/OutputPath/Replace.antt =====
-- pipeline/pipeline_config.c: the output format replaces the extension of the output path.
